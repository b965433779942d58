-- ===== src/Jobs/Publish/Outcomes.antt =====
-- What a publication leaves behind, in each of its outcomes.
use agents_at_scale.Prelude.{
  String, ◌≡◌, ◌≢◌, inl, inr, refl, sym, ap, ◌∙◌, Bool, true, false, none, some, ◌∷◌, arith,
  Bool-cases, Option-cases,
}
use agents_at_scale.Prelude.Eq.{◌==◌, string_eq}
use text.Mathlib.TextEquality.{eq_iff}
use agents_at_scale.Jobs.Json.{Json}
use agents_at_scale.Jobs.Platform.{
  published, Timing, Job, set_job_status, mark_job_timing, claim_idempotency_key,
  release_idempotency_key, broker_publish, History, Outcome, returned, raised, World, ◌>>◌, pure,
  raise, call, continue, recover,
}
use agents_at_scale.Jobs.Publish.{queue, queue_claimed, publish_job, publish}

module _ (w : World) (job : Job) where
  pub stored_at : History → History
  stored_at h =
      mark_job_timing job.id Timing.published_ms (w.now_ms (set_job_status job.id published ∷ h))
      ∷ set_job_status job.id published
      ∷ h

  -- The status is stored, and its time, before the broker is called.
  pub queued_at : History → History
  unfolding stored_at
  queued_at h = broker_publish job ∷ stored_at h

  -- None of the three calls raised.
  pub record Went (h : History) : Type 0 where
    pub stored : w.raises h (set_job_status job.id published) ≡ none
    pub timed :
        w.raises (set_job_status job.id published ∷ h) (
          mark_job_timing job.id Timing.published_ms
            (w.now_ms (set_job_status job.id published ∷ h)))
        ≡ none
    pub sent : w.raises (stored_at h) (broker_publish job) ≡ none

  pub queue_ok :
      (h : History)
      → (queue w job h).0 ≡ returned tt
      → (queue w job h ≡ (returned tt, queued_at h)) × Went h
  unfolding queue queued_at stored_at
  queue_ok h done = elim (Option-cases (w.raises h (set_job_status job.id published))) [
    | inr (e, fails) ↦ absurd (ground (arith, fails, done))
    | inl stored ↦
        (ground arith, record { stored = stored; timed = ground arith; sent = ground arith })
  ]

  module _ (key : String) where
    -- The rest of a publication under a key, once the queueing is over
    claimed_end : Outcome (Unit {0}) × History → Outcome (String × Bool) × History
    claimed_end x =
        continue (λ _. pure (job.id, false))
          (recover (λ error. call w (release_idempotency_key key) >> raise error) x)

    claimed_end_failed :
        (x : Outcome (Unit {0}) × History) {e : String}
        → (claimed_end x).0 ≡ raised e
        → (before : History) × ((claimed_end x).1 ≡ release_idempotency_key key ∷ before)
    unfolding claimed_end
    claimed_end_failed (returned a, g) failure = absurd (cc)
    claimed_end_failed (raised x, g) failure =
        elim (Option-cases (w.raises g (release_idempotency_key key))) [
          | inl e ↦ rw e (g, refl)
          | inr (y, e) ↦ rw e (g, refl)
        ]

    claimed_end_ok :
        (x : Outcome (Unit {0}) × History) {id : String}
        → (claimed_end x).0 ≡ returned (id, false)
        → (x.0 ≡ returned tt) × (id ≡ job.id) × ((claimed_end x).1 ≡ x.1)
    unfolding claimed_end
    claimed_end_ok (returned tt, g) {id} done =
        let equal : ◌≡◌ {A = Outcome (String × Bool)} (returned (job.id, false))
            (returned (id, false)) =
          done in
        (
          refl,
          ap (λ (o : Outcome (String × Bool)). elim o [ returned a ↦ a.0 | raised _ ↦ id ])
              (sym equal),
          refl,
        )
    claimed_end_ok (raised x, g) done =
        elim (Option-cases (w.raises g (release_idempotency_key key))) [
          | inl e ↦ absurd (ground (arith, e, done))
          | inr (y, e) ↦ absurd (ground (arith, e, done))
        ]

    -- A claim that was the first is never answered as a repeated one.
    claimed_end_new :
        (x : Outcome (Unit {0}) × History) {id : String} → (claimed_end x).0 ≢ returned (id, true)
    unfolding claimed_end
    claimed_end_new (returned tt, g) {id} done =
        let equal : ◌≡◌ {A = Outcome (String × Bool)} (returned (job.id, false))
            (returned (id, true)) =
          done in
        cc equal
    claimed_end_new (raised x, g) done =
        elim (Option-cases (w.raises g (release_idempotency_key key))) [
          | inl e ↦ ground (arith, e, done)
          | inr (y, e) ↦ ground (arith, e, done)
        ]

    queue_claimed_failed :
        (h : History) {e : String}
        → (queue_claimed w job key h).0 ≡ raised e
        → (before : History) × ((queue_claimed w job key h).1
            ≡ release_idempotency_key key ∷ before)
    unfolding queue_claimed claimed_end
    queue_claimed_failed h failure = claimed_end_failed (queue w job h) failure

    queue_claimed_ok :
        (h : History) {id : String}
        → (queue_claimed w job key h).0 ≡ returned (id, false)
        → (id ≡ job.id) × ((queue_claimed w job key h).1 ≡ queued_at h) × Went h
    unfolding queue_claimed claimed_end
    queue_claimed_ok h {id} done =
        let (queued, same, rest) = claimed_end_ok (queue w job h) done in
        let (at, taken) = queue_ok h queued in
        (same, rest ∙ ap (λ (x : Outcome (Unit {0}) × History). x.1) at, taken)

module _ (w : World) (payload : Json) (key : String) (h : History) where
  abbrev pub new_job : Job
  new_job = record { id = w.new_id h; payload = payload; attempt = 0; error = none }

  -- A key that is taken: the owner's job is named, and nothing is stored or queued.
  pub publish_duplicate :
      key ≢ ""
      → w.raises h (claim_idempotency_key key (w.new_id h)) ≡ none
      → (w.key_owner h key (w.new_id h)).1 ≡ false
      → publish w payload (some key) h ≡ (
        returned ((w.key_owner h key (w.new_id h)).0, true),
        claim_idempotency_key key (w.new_id h) ∷ h,
      )
  unfolding publish publish_job
  publish_duplicate given claimed taken = elim (Bool-cases (key == "")) [
    | inl e ↦ absurd (given ((eq_iff key "").0 e))
    | inr e ↦ rw (e, claimed, taken) refl
  ]

  -- Whatever fails after the key was claimed, the claim is given up again, so that the request may be repeated.
  pub publish_failed :
      {e : String}
      → key ≢ ""
      → w.raises h (claim_idempotency_key key (w.new_id h)) ≡ none
      → (publish w payload (some key) h).0 ≡ raised e
      → (before : History) × ((publish w payload (some key) h).1
          ≡ release_idempotency_key key ∷ before)
  unfolding publish publish_job queue_claimed
  publish_failed {e} given claimed failure = elim (Bool-cases (key == "")) [
    | inl k ↦ absurd (given ((eq_iff key "").0 k))
    | inr k ↦ elim (Bool-cases (w.key_owner h key (w.new_id h)).1) [
      | inl first ↦
          rw (k, claimed, first)
            (queue_claimed_failed w new_job key (claim_idempotency_key key (w.new_id h) ∷ h)
              (rw (k, claimed, first) at failure))
      | inr taken ↦
          let impossible : ◌≡◌ {A = Outcome (String × Bool)}
              (returned ((w.key_owner h key (w.new_id h)).0, true)) (raised e) =
            rw (k, claimed, taken) at failure in
          absurd (cc impossible)
    ]
  ]

  -- An answer that is no duplicate names a new job that the broker has taken, and whose status was stored before
  -- that.
  pub publish_queued :
      {id : String}
      → key ≢ ""
      → (publish w payload (some key) h).0 ≡ returned (id, false)
      → (id ≡ w.new_id h)
        × ((publish w payload (some key) h).1
            ≡ queued_at w new_job (claim_idempotency_key key (w.new_id h) ∷ h))
        × Went w new_job (claim_idempotency_key key (w.new_id h) ∷ h)
  unfolding publish publish_job
  publish_queued {id} given done = elim (Bool-cases (key == "")) [
    | inl k ↦ absurd (given ((eq_iff key "").0 k))
    | inr k ↦ elim (Option-cases (w.raises h (claim_idempotency_key key (w.new_id h)))) [
      | inr (x, unclaimed) ↦
          let impossible : ◌≡◌ {A = Outcome (String × Bool)} (raised x) (returned (id, false)) =
            rw (k, unclaimed) at done in
          absurd (cc impossible)
      | inl claimed ↦ elim (Bool-cases (w.key_owner h key (w.new_id h)).1) [
        | inl first ↦
            rw (k, claimed, first)
              (queue_claimed_ok w new_job key (claim_idempotency_key key (w.new_id h) ∷ h)
                (rw (k, claimed, first) at done))
        | inr taken ↦
            let impossible : ◌≡◌ {A = Outcome (String × Bool)}
                (returned ((w.key_owner h key (w.new_id h)).0, true)) (returned (id, false)) =
              rw (k, claimed, taken) at done in
            absurd (cc impossible)
      ]
    ]
  ]

  -- A repeated request: the key has an owner, whose job is named, and nothing is stored or queued.
  pub publish_repeated :
      {id : String}
      → key ≢ ""
      → (publish w payload (some key) h).0 ≡ returned (id, true)
      → (id ≡ (w.key_owner h key (w.new_id h)).0)
        × ((w.key_owner h key (w.new_id h)).1 ≡ false)
        × ((publish w payload (some key) h).1 ≡ claim_idempotency_key key (w.new_id h) ∷ h)
  unfolding publish publish_job queue_claimed claimed_end
  publish_repeated {id} given done = elim (Bool-cases (key == "")) [
    | inl k ↦ absurd (given ((eq_iff key "").0 k))
    | inr k ↦ elim (Option-cases (w.raises h (claim_idempotency_key key (w.new_id h)))) [
      | inr (x, unclaimed) ↦
          let impossible : ◌≡◌ {A = Outcome (String × Bool)} (raised x) (returned (id, true)) =
            rw (k, unclaimed) at done in
          absurd (cc impossible)
      | inl claimed ↦ elim (Bool-cases (w.key_owner h key (w.new_id h)).1) [
        | inl first ↦ absurd (
            claimed_end_new w new_job key
              (queue w new_job (claim_idempotency_key key (w.new_id h) ∷ h))
              (rw (k, claimed, first) at done))
        | inr taken ↦
            let equal : ◌≡◌ {A = Outcome (String × Bool)}
                (returned ((w.key_owner h key (w.new_id h)).0, true)) (returned (id, true)) =
              rw (k, claimed, taken) at done in
            (cc equal, taken, ap (λ x. x.1) (publish_duplicate given claimed taken))
      ]
    ]
  ]
