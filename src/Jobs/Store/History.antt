-- ===== src/Jobs/Store/History.antt =====
-- What any number of workers do to the store in turn, and what a lock and a claim are good for.
use text.Mathlib.TextEquality.{eq_iff}
use agents_at_scale.Prelude.{
  ℕ, String, ◌≡◌, ◌≢◌, sym, ap, ◌∙◌, ◌<◌, ◌+◌, true, false, Option, some, List, [], ◌∷◌, arith, All,
  Bool-cases, inl, inr,
}
use agents_at_scale.Prelude.Eq.{◌==◌, string_eq}
use agents_at_scale.Jobs.Store.Keys.{
  idempotency_key, lock_key, job-ne-lock, job-ne-idempotency, idempotency-ne-lock, lock_key_inj,
  idempotency_key_inj,
}
use agents_at_scale.Jobs.Store.{
  Redis, status_ttl, claim, owner_of, claim_idempotency_key, acquire_conversation_lock,
}
use agents_at_scale.Jobs.Store.Holding.{
  set_status, set_metadata, mark_timing, set_timing, claim_key, release_key, acquire, release, run,
  run-Holds, set_nx-Holds, set_nx_again, Command, Ordered, Ordered-le, Spares, NoJobKey,
}

Spares-lock :
    (conversation token : String) (c : Command)
    → c ≢ release conversation token
    → Spares (lock_key conversation) token c
Spares-lock conversation token (release_key key) other = idempotency-ne-lock key conversation
Spares-lock conversation token (release d u) other = elim (Bool-cases (u == token)) [
  | inr e ↦ inr (λ same. absurd (cc (e, (eq_iff u token).1 same)))
  | inl e ↦
      inl
        (λ same. other (λ i. release (lock_key_inj d conversation same i) ((eq_iff u token).0 e i)))
]
Spares-lock conversation token (set_status j s) other = tt
Spares-lock conversation token (set_metadata j s) other = tt
Spares-lock conversation token (mark_timing j f n) other = tt
Spares-lock conversation token (set_timing j f n) other = tt
Spares-lock conversation token (claim_key k j) other = tt
Spares-lock conversation token (acquire d u n) other = tt

Spares-claim :
    (key job_id : String) (c : Command)
    → c ≢ release_key key
    → Spares (idempotency_key key) job_id c
Spares-claim key job_id (release_key l) other =
    λ same. other (λ i. release_key (idempotency_key_inj l key same i))
Spares-claim key job_id (release d u) other = inl (λ same. idempotency-ne-lock key d (sym same))
Spares-claim key job_id (set_status j s) other = tt
Spares-claim key job_id (set_metadata j s) other = tt
Spares-claim key job_id (mark_timing j f n) other = tt
Spares-claim key job_id (set_timing j f n) other = tt
Spares-claim key job_id (claim_key k j) other = tt
Spares-claim key job_id (acquire d u n) other = tt

All-map :
    (P Q : ℕ × Command → Type 0) (steps : List (ℕ × Command))
    → ((st : ℕ × Command) → P st → Q st)
    → All P steps
    → All Q steps
All-map P Q [] f h = tt
All-map P Q (st ∷ steps) f h = (f st h.0, All-map P Q steps f h.1)

module _ (redis : Redis) where
  -- A granted lock excludes: whatever any number of workers then write to the store, their own attempts at
  -- the same lock and releases by other tokens included, no attempt at it is granted before its time to
  -- live is over, if the granted token is not released first.
  pub acquire_excludes :
      (now later ttl_ms other_ttl : ℕ) (conversation token other : String) (d : redis.Data)
      (steps : List (ℕ × Command))
      → (acquire_conversation_lock redis now conversation token ttl_ms d).1 ≡ true
      → Ordered now steps later
      → later < now + ttl_ms
      → All (λ st. st.1 ≢ release conversation token) steps
      → (acquire_conversation_lock redis later conversation other other_ttl
          (run redis steps (acquire_conversation_lock redis now conversation token ttl_ms d).0)).1
        ≡ false
  unfolding acquire_conversation_lock
  acquire_excludes now later ttl_ms other_ttl conversation token other d steps done order early
        kept =
      let k = lock_key conversation in
      let foreign : NoJobKey k = λ s. job-ne-lock s conversation in
      let held =
        run-Holds redis k token foreign now (now + ttl_ms) later steps _ order early
          (All-map _ _ steps (λ st. Spares-lock conversation token st.1) kept)
          (set_nx-Holds redis k token foreign now ttl_ms d done) in
      set_nx_again redis k token foreign later (now + ttl_ms) other other_ttl _ early held

  -- A claimed idempotency key has one owner: whatever any number of workers then write to the store,
  -- a later claim within the key's time to live is refused and answers with the job that claimed it first,
  -- also where other workers write between its two commands, if no worker releases the key.
  pub claim_owns :
      (now later read_at : ℕ) (key job_id other : String) (d : redis.Data)
      (steps between : List (ℕ × Command))
      → (claim redis now key job_id d).1 ≡ true
      → Ordered now steps later
      → Ordered later between read_at
      → read_at < now + status_ttl
      → All (λ st. st.1 ≢ release_key key) steps
      → All (λ st. st.1 ≢ release_key key) between
      → claim_idempotency_key redis later read_at key other
          (run redis between)
          (run redis steps (claim redis now key job_id d).0)
        ≡ (some job_id, false)
  unfolding claim_idempotency_key claim
  claim_owns now later read_at key job_id other d steps between done order order' early kept kept' =
      let k = idempotency_key key in
      let foreign : NoJobKey k = λ s. job-ne-idempotency s key in
      let soon = Ordered-le later between read_at order' in
      let until = now + status_ttl in
      let spared = λ (st : ℕ × Command). Spares-claim key job_id st.1 in
      let held =
        run-Holds redis k job_id foreign now until later steps _ order (omega arith)
          (All-map _ _ steps spared kept)
          (set_nx-Holds redis k job_id foreign now status_ttl d done) in
      let refused =
        redis.set_nx_refused later k other status_ttl _
          (redis.exists_of_get later k _ (held later (omega arith) (omega arith))) in
      let shown =
        run-Holds redis k job_id foreign later until read_at between _ order' early
          (All-map _ _ between spared kept') held read_at (omega arith) early in
      ap (owner_of redis read_at key other (run redis between)) refused
      ∙ ap (λ (o : Option String). (o, false)) shown
