-- ===== src/Jobs/Store/Holding.antt =====
-- The writes to the job store (langgraph-python/app/platform/redis.py), and how long a key keeps its value.
use Prim.Native.String.{◌++◌}
use text.Mathlib.TextEquality.{eq_iff}
use agents_at_scale.Prelude.{
  ℕ, String, ◌≡◌, ◌≢◌, sym, ap, ◌∙◌, ◌⊎◌, ◌≤◌, ◌<◌, ◌+◌, Bool, true, false, some, List, [], ◌∷◌,
  arith, All, Bool-cases, inl, inr,
}
use agents_at_scale.Prelude.Eq.{◌==◌, string_eq}
use agents_at_scale.Jobs.Store.Keys.{idempotency_key, lock_key}
use agents_at_scale.Jobs.Store.{
  Redis, status_ttl, set_job_status, set_job_metadata, mark_job_timing, set_job_timing, claim,
  release_idempotency_key, acquire_conversation_lock, release_lock, release_conversation_lock,
}

-- The writes of the job store.
pub data Command : Type 0 where
  set_status set_metadata : String → String → Command
  mark_timing set_timing : String → String → ℕ → Command
  claim_key : String → String → Command
  release_key : String → Command
  acquire : String → String → ℕ → Command
  release : String → String → Command

-- Their times rise, from the first to the last.
abbrev pub Ordered : ℕ → List (ℕ × Command) → ℕ → Type 0
Ordered start [] end = start ≤ end
Ordered start ((t, c) ∷ steps) end = (start ≤ t) × Ordered t steps end

module _ (redis : Redis) where
  open redis use {Data, get, set_nx}

  unfoldable pub perform : ℕ → Command → Data → Data
  perform now (set_status job_id status) d = set_job_status redis now job_id status d
  perform now (set_metadata job_id metadata) d = set_job_metadata redis now job_id metadata d
  perform now (mark_timing job_id field at) d = mark_job_timing redis now job_id field at d
  perform now (set_timing job_id field value) d = set_job_timing redis now job_id field value d
  perform now (claim_key key job_id) d = (claim redis now key job_id d).0
  perform now (release_key key) d = release_idempotency_key redis key d
  perform now (acquire conversation token ttl_ms) d =
      (acquire_conversation_lock redis now conversation token ttl_ms d).0
  perform now (release conversation token) d =
      release_conversation_lock redis now conversation token d

  unfoldable pub run : List (ℕ × Command) → Data → Data
  run [] d = d
  run ((now, c) ∷ steps) d = run steps (perform now c d)

pub Ordered-le :
    (start : ℕ) (steps : List (ℕ × Command)) (end : ℕ) → Ordered start steps end → start ≤ end
Ordered-le start [] end h = h
Ordered-le start ((t, c) ∷ steps) end h = omega (arith, Ordered-le t steps end h.1)

-- From `now` until then, the key shows the value.
abbrev pub Holds : (redis : Redis) → String → String → ℕ → ℕ → redis.Data → Type 0
Holds redis k v now until d = (t : ℕ) → now ≤ t → t < until → redis.get t k d ≡ some v

module _ (redis : Redis) (k v : String) (now at until : ℕ) (d : redis.Data) (le : now ≤ at)
    (h : Holds redis k v now until d) where
  set_elsewhere :
      (j u : String) (ttl : ℕ) → j ≢ k → Holds redis k v at until (redis.set at j u ttl d)
  set_elsewhere j u ttl apart t after before =
      ground (arith, redis.get-set at t j u ttl k d, h t, eq_iff k j)

  delete_elsewhere : (j : String) → j ≢ k → Holds redis k v at until (redis.delete j d)
  delete_elsewhere j apart t after before =
      ground (arith, redis.get-delete t j k d, h t, eq_iff k j)

  -- NX leaves a key that shows a value, and another key is another key.
  set_nx_anywhere :
      (j u : String) (ttl : ℕ) → at < until → Holds redis k v at until (redis.set_nx at j u ttl d).0
  set_nx_anywhere j u ttl early = elim (Bool-cases (redis.exists at j d)) [
    | inl there ↦ λ t after before.
        ap (λ (x : redis.Data). redis.get t k x)
          (ap (λ (p : redis.Data × Bool). p.0) (redis.set_nx_refused at j u ttl d there))
        ∙ h t (omega arith) before
    | inr missing ↦ λ t after before.
        let apart : j ≢ k = λ same.
          let there = redis.exists_of_get at k d (h at le early) in
          absurd (cc (there, missing, same)) in
        ap (λ (x : redis.Data). redis.get t k x)
          (ap (λ (p : redis.Data × Bool). p.0) (redis.set_nx_granted at j u ttl d missing))
        ∙ set_elsewhere j u ttl apart t after before
  ]

  hset_elsewhere :
      (j f : String) (n ttl : ℕ)
      → j ≢ k
      → Holds redis k v at until (redis.expire at j ttl (redis.hset at j f n d))
  hset_elsewhere j f n ttl apart t after before =
      redis.get-expire at t j ttl k _ (λ same. apart (sym same))
      ∙ redis.get-hset at t j f n k d (λ same. apart (sym same))
      ∙ h t (omega arith) before

  hsetnx_elsewhere :
      (j f : String) (n ttl : ℕ)
      → j ≢ k
      → Holds redis k v at until (redis.expire at j ttl (redis.hsetnx at j f n d))
  hsetnx_elsewhere j f n ttl apart t after before =
      redis.get-expire at t j ttl k _ (λ same. apart (sym same))
      ∙ redis.get-hsetnx at t j f n k d (λ same. apart (sym same))
      ∙ h t (omega arith) before

  -- A release by another token leaves the lock.
  release_elsewhere :
      (j token : String)
      → at < until
      → (j ≢ k) ⊎ (token ≢ v)
      → Holds redis k v at until (release_lock redis at j token d)
  unfolding release_lock
  release_elsewhere j token early other t after before =
      let kept = h t (omega arith) before in
      elim (Bool-cases (j == k)) [
        | inl s ↦
            let same : j ≡ k = (eq_iff j k).0 s in
            let shown : redis.get at j d ≡ some v =
              ap (λ x. redis.get at x d) same ∙ h at le early in
            ground (arith, shown, eq_iff v token, eq_iff j k)
        | inr s ↦
            let apart : j ≢ k = λ same. absurd (cc (s, (eq_iff j k).1 same)) in
            let deleted = delete_elsewhere j apart t after before in ground arith
      ]

-- Commands that do not free the key.
abbrev pub Spares : String → String → Command → Type 0
Spares k v (release_key key) = idempotency_key key ≢ k
Spares k v (release conversation token) = (lock_key conversation ≢ k) ⊎ (token ≢ v)
Spares k v _ = Unit

abbrev pub NoJobKey : String → Type 0
NoJobKey k = (s : String) → "job:" ++ s ≢ k

module _ (redis : Redis) (k v : String) (no_job : NoJobKey k) where
  perform-Holds :
      (now at until : ℕ) (c : Command) (d : redis.Data)
      → now ≤ at
      → at < until
      → Spares k v c
      → Holds redis k v now until d
      → Holds redis k v at until (perform redis at c d)
  unfolding perform set_job_status set_job_metadata mark_job_timing set_job_timing claim
      release_idempotency_key acquire_conversation_lock release_conversation_lock
  perform-Holds now at until (set_status job_id status) d le early spares h =
      set_elsewhere redis k v now at until d le h _ status status_ttl (no_job (job_id ++ ":status"))
  perform-Holds now at until (set_metadata job_id metadata) d le early spares h =
      set_elsewhere redis k v now at until d le h _ metadata status_ttl
        (no_job (job_id ++ ":metadata"))
  perform-Holds now at until (mark_timing job_id field n) d le early spares h =
      hsetnx_elsewhere redis k v now at until d le h _ field n status_ttl
        (no_job (job_id ++ ":timing"))
  perform-Holds now at until (set_timing job_id field n) d le early spares h =
      hset_elsewhere redis k v now at until d le h _ field n status_ttl
        (no_job (job_id ++ ":timing"))
  perform-Holds now at until (claim_key key job_id) d le early spares h =
      set_nx_anywhere redis k v now at until d le h (idempotency_key key) job_id status_ttl early
  perform-Holds now at until (release_key key) d le early spares h =
      delete_elsewhere redis k v now at until d le h (idempotency_key key) spares
  perform-Holds now at until (acquire conversation token ttl_ms) d le early spares h =
      set_nx_anywhere redis k v now at until d le h (lock_key conversation) token ttl_ms early
  perform-Holds now at until (release conversation token) d le early spares h =
      release_elsewhere redis k v now at until d le h (lock_key conversation) token early spares

  pub run-Holds :
      (now until end : ℕ) (steps : List (ℕ × Command)) (d : redis.Data)
      → Ordered now steps end
      → end < until
      → All (λ st. Spares k v st.1) steps
      → Holds redis k v now until d
      → Holds redis k v end until (run redis steps d)
  unfolding run
  run-Holds now until end [] d order early spares h = λ t after before. h t (omega arith) before
  run-Holds now until end ((at, c) ∷ steps) d order early spares h =
      let soon = Ordered-le at steps end order.1 in
      run-Holds at until end steps (perform redis at c d) order.1 early spares.1
        (perform-Holds now at until c d order.0 (omega arith) spares.0 h)

  -- What NX wrote is shown until it expires.
  pub set_nx-Holds :
      (now ttl : ℕ) (d : redis.Data)
      → (redis.set_nx now k v ttl d).1 ≡ true
      → Holds redis k v now (now + ttl) (redis.set_nx now k v ttl d).0
  set_nx-Holds now ttl d done t after before = elim (Bool-cases (redis.exists now k d)) [
    | inl there ↦
        let refused =
          ap (λ (p : redis.Data × Bool). p.1) (redis.set_nx_refused now k v ttl d there) in
        absurd (cc (refused, done))
    | inr missing ↦
        ap (λ (x : redis.Data). redis.get t k x)
          (ap (λ (p : redis.Data × Bool). p.0) (redis.set_nx_granted now k v ttl d missing))
        ∙ ground (arith, redis.get-set now t k v ttl k d, eq_iff k k)
  ]

  pub set_nx_again :
      (now until : ℕ) (u : String) (ttl : ℕ) (d : redis.Data)
      → now < until
      → Holds redis k v now until d
      → (redis.set_nx now k u ttl d).1 ≡ false
  set_nx_again now until u ttl d early h =
      ap (λ (p : redis.Data × Bool). p.1)
        (redis.set_nx_refused now k u ttl d
          (redis.exists_of_get now k d (h now (omega arith) early)))
