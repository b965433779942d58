-- ===== src/Jobs/Store/Timings.antt =====
-- The first write of a timing stays (langgraph-python/app/platform/redis.py).
use text.Mathlib.TextEquality.{eq_iff}
use agents_at_scale.Prelude.{
  ℕ, String, ◌≡◌, ◌≢◌, sym, ap, ◌∙◌, ◌≤◌, ◌<◌, ◌+◌, Bool, Option, none, some, List, [], ◌∷◌, arith,
  All, Bool-cases, Option-cases, inl, inr,
}
use agents_at_scale.Prelude.Eq.{◌==◌, string_eq}
use agents_at_scale.Jobs.Store.Keys.{
  timing_key, job-ne-idempotency, job-ne-lock, timing-ne-status, timing-ne-metadata, timing_key_inj,
}
use agents_at_scale.Jobs.Store.{
  Redis, status_ttl, set_job_status, set_job_metadata, mark_job_timing, set_job_timing, claim,
  release_idempotency_key, acquire_conversation_lock, release_lock, release_conversation_lock,
}
use agents_at_scale.Jobs.Store.Holding.{
  Command, set_status, set_metadata, mark_timing, set_timing, claim_key, release_key, acquire,
  release, perform, run, Ordered, Ordered-le,
}

abbrev pub first_of : Option ℕ → ℕ → ℕ
first_of none at = at
first_of (some old) at = old

module _ (redis : Redis) (job_id field : String) where
  open redis use {Data, hget}

  -- From `now` until then, the timing shows the value.
  abbrev Shows : ℕ → ℕ → ℕ → Data → Type 0
  Shows now until value d =
      (t : ℕ) → now ≤ t → t < until → hget t (timing_key job_id) field d ≡ some value

  marked :
      (now at : ℕ) (d : Data)
      → Shows now
          (now + status_ttl)
          (first_of (hget now (timing_key job_id) field d) at)
          (mark_job_timing redis now job_id field at d)
  unfolding mark_job_timing
  marked now at d t after before =
      let k = timing_key job_id in
      let kept = redis.hget-expire now t k status_ttl field (redis.hsetnx now k field at d) after in
      elim (Option-cases (hget now k field d)) [
        | inl e ↦ ground (arith, kept, redis.hsetnx_free now k field at d)
        | inr (old, e) ↦ ground (arith, kept, redis.hsetnx_held now k field at d {m = old})
      ]

  -- What a command does is expressed by whether it is about this hash.
  module _ (now at until value : ℕ) (le : now ≤ at) (early : at < until)
      (late : until ≤ at + status_ttl) (d : Data) (h : Shows now until value d) where
    later : Shows at until value d
    later t after before = h t (omega arith) before

    set_elsewhere :
        (j v : String) (ttl : ℕ)
        → timing_key job_id ≢ j
        → Shows at until value (redis.set at j v ttl d)
    set_elsewhere j v ttl apart t after before =
        redis.hget-set at t j v ttl (timing_key job_id) field d apart ∙ later t after before

    delete_elsewhere :
        (j : String) → timing_key job_id ≢ j → Shows at until value (redis.delete j d)
    delete_elsewhere j apart t after before =
        redis.hget-delete t j (timing_key job_id) field d apart ∙ later t after before

    set_nx_elsewhere :
        (j v : String) (ttl : ℕ)
        → timing_key job_id ≢ j
        → Shows at until value (redis.set_nx at j v ttl d).0
    set_nx_elsewhere j v ttl apart t after before = elim (Bool-cases (redis.exists at j d)) [
      | inl there ↦
          ap (λ (p : Data × Bool). hget t (timing_key job_id) field p.0)
            (redis.set_nx_refused at j v ttl d there)
          ∙ later t after before
      | inr missing ↦
          ap (λ (p : Data × Bool). hget t (timing_key job_id) field p.0)
            (redis.set_nx_granted at j v ttl d missing)
          ∙ set_elsewhere j v ttl apart t after before
    ]

    release_elsewhere :
        (j token : String)
        → timing_key job_id ≢ j
        → Shows at until value (release_lock redis at j token d)
    unfolding release_lock
    release_elsewhere j token apart t after before =
        ground (arith, later t after before, delete_elsewhere j apart t after before)

    -- A write to a hash, and its new time of expiry.
    refreshed :
        (j : String) (d' : Data)
        → ((t : ℕ)
            → timing_key job_id ≢ j
            → hget t (timing_key job_id) field d' ≡ hget t (timing_key job_id) field d)
        → (j ≡ timing_key job_id → hget at j field d' ≡ some value)
        → Shows at until value (redis.expire at j status_ttl d')
    refreshed j d' other same t after before = elim (Bool-cases (j == timing_key job_id)) [
      | inl e ↦
          let one = (eq_iff j (timing_key job_id)).0 e in
          ap (λ x. hget t x field (redis.expire at j status_ttl d')) (sym one)
          ∙ ground (arith, redis.hget-expire at t j status_ttl field d' after, same one)
      | inr e ↦
          let apart : timing_key job_id ≢ j =
            λ one. absurd (cc (e, (eq_iff j (timing_key job_id)).1 (sym one))) in
          redis.expire_elsewhere at t j status_ttl (timing_key job_id) field d' apart
          ∙ other t apart
          ∙ later t after before
    ]

    shown : (j : String) → j ≡ timing_key job_id → hget at j field d ≡ some value
    shown j one = ap (λ x. hget at x field d) one ∙ h at le early

    mark_elsewhere :
        (i f : String) (n : ℕ) → Shows at until value (mark_job_timing redis at i f n d)
    unfolding mark_job_timing
    mark_elsewhere i f n =
        let j = timing_key i in
        refreshed j (redis.hsetnx at j f n d)
          (λ t apart. redis.hget-hsetnx at t j f n (timing_key job_id) field d apart)
          (λ one. elim (Bool-cases (field == f)) [
            | inl e ↦
                let same = (eq_iff field f).0 e in
                ap (λ g. hget at j g (redis.hsetnx at j f n d)) same
                ∙ redis.hsetnx_held at j f n d (ap (λ g. hget at j g d) (sym same) ∙ shown j one)
            | inr e ↦
                redis.hsetnx_field at j f n field d
                  (λ same. absurd (cc (e, (eq_iff field f).1 same)))
                ∙ shown j one
          ])

    set_elsewhere_timing :
        (i f : String) (n : ℕ)
        → set_timing i f n ≢ set_timing job_id field n
        → Shows at until value (set_job_timing redis at i f n d)
    unfolding set_job_timing
    set_elsewhere_timing i f n other =
        let j = timing_key i in
        refreshed j (redis.hset at j f n d)
          (λ t apart. redis.hget-hset at t j f n (timing_key job_id) field d apart)
          (λ one.
            redis.hset_field at j f n field d
              (λ same. other (λ x. set_timing (timing_key_inj i job_id one x) (sym same x) n))
            ∙ shown j one)

    perform-Shows :
        (c : Command)
        → ((n : ℕ) → c ≢ set_timing job_id field n)
        → Shows at until value (perform redis at c d)
    unfolding perform set_job_status set_job_metadata claim release_idempotency_key
        acquire_conversation_lock release_conversation_lock
    perform-Shows (set_status j status) other =
        set_elsewhere _ status status_ttl (timing-ne-status job_id j)
    perform-Shows (set_metadata j metadata) other =
        set_elsewhere _ metadata status_ttl (timing-ne-metadata job_id j)
    perform-Shows (mark_timing j f n) other = mark_elsewhere j f n
    perform-Shows (set_timing j f n) other = set_elsewhere_timing j f n (other n)
    perform-Shows (claim_key key j) other =
        set_nx_elsewhere _ j status_ttl (job-ne-idempotency _ key)
    perform-Shows (release_key key) other = delete_elsewhere _ (job-ne-idempotency _ key)
    perform-Shows (acquire conversation token ttl_ms) other =
        set_nx_elsewhere _ token ttl_ms (job-ne-lock _ conversation)
    perform-Shows (release conversation token) other =
        release_elsewhere _ token (job-ne-lock _ conversation)

  run-Shows :
      (now until value end : ℕ) (steps : List (ℕ × Command)) (d : Data)
      → Ordered now steps end
      → end < until
      → until ≤ now + status_ttl
      → All (λ st. (n : ℕ) → st.1 ≢ set_timing job_id field n) steps
      → Shows now until value d
      → hget end (timing_key job_id) field (run redis steps d) ≡ some value
  unfolding run
  run-Shows now until value end [] d order early late kept h = h end order early
  run-Shows now until value end ((at, c) ∷ steps) d order early late kept h =
      let soon = Ordered-le at steps end order.1 in
      run-Shows at until value end steps (perform redis at c d) order.1 early (omega arith) kept.1
        (perform-Shows now at until value order.0 (omega arith) (omega arith) d h c kept.0)

-- The first write of a timing stays: whatever any number of workers then write to the store, marks of the
-- same timing and of others, other timings and statuses of the job included, the timing shows what it
-- showed before the mark, or what the mark wrote if it showed nothing, until a time to live has passed
-- since the mark, if no set_job_timing writes this field of this job.
pub mark_job_timing_first :
    (redis : Redis) (job_id field : String) (now at end : ℕ) (steps : List (ℕ × Command))
    (d : redis.Data)
    → Ordered now steps end
    → end < now + status_ttl
    → All (λ st. (n : ℕ) → st.1 ≢ set_timing job_id field n) steps
    → redis.hget end
        (timing_key job_id)
        field
        (run redis steps (mark_job_timing redis now job_id field at d))
      ≡ some (first_of (redis.hget now (timing_key job_id) field d) at)
mark_job_timing_first redis job_id field now at end steps d order early kept =
    run-Shows redis job_id field now (now + status_ttl) _ end steps _ order early (omega arith) kept
      (marked redis job_id field now at d)
