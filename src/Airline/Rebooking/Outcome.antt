-- ===== src/Airline/Rebooking/Outcome.antt =====
-- `execute` forwards: what a snapshot and its validation make of it.
use agents_at_scale.Prelude.{◌≡◌, sym, ap, ◌∙◌, Bool, true, Option, [], inl, inr}
use agents_at_scale.Airline.Errors.{Error, Result, ok, err}
use agents_at_scale.Airline.Models.{TravelCredit}
use agents_at_scale.Airline.Schemas.{Selection, Snapshot}
use agents_at_scale.Airline.Database.{Database, Session, Tx, ◌>>=◌, lift, atomically_err}
use agents_at_scale.Airline.Rebooking.{
  Inputs, Validate, lock_all, lock_keys, lock_fares, apply_change, change_booking, execute,
}
use agents_at_scale.Airline.Snapshot.{snapshot, get_snapshot}
use agents_at_scale.Airline.Rebooking.Execution.{
  value, Result-cases, value-snapshot, snapshot_db, lock_all_db,
}

pub bind-ok :
    {A B : Type 0} (m : Tx A) (f : A → Tx B) (s : Session) {a : A} {t : Session}
    → m s ≡ ok (a, t)
    → (m >>= f) s ≡ f a t
bind-ok m f s e = rw (e, ◌>>=◌)

pub bind-err :
    {A B : Type 0} (m : Tx A) (f : A → Tx B) (s : Session) {x : Error}
    → m s ≡ err x
    → (m >>= f) s ≡ err x
bind-err m f s e = rw (e, ◌>>=◌)

snapshot_ok :
    (sel : Selection) (lock : Bool) (s : Session) {a : Snapshot × Option TravelCredit}
    → get_snapshot sel s.db ≡ ok a
    → (t : Session) × (snapshot sel lock s ≡ ok (a, t)) × (t.db ≡ s.db)
snapshot_ok sel lock s {a} h = elim (Result-cases (snapshot sel lock s)) [
  | inl ((b, t), e) ↦
      let same : ◌≡◌ {A = Result (Snapshot × Option TravelCredit)} (ok b) (ok a) =
        sym (ap value e) ∙ value-snapshot sel lock s ∙ h in
      let equal : b ≡ a = cc same in (t, e ∙ ap (λ c. ok (c, t)) equal, snapshot_db sel lock s e)
  | inr (x, e) ↦
      let same : ◌≡◌ {A = Result (Snapshot × Option TravelCredit)} (err x) (ok a) =
        sym (ap value e) ∙ value-snapshot sel lock s ∙ h in
      absurd (cc same)
]

snapshot_err :
    (sel : Selection) (lock : Bool) (s : Session) {x : Error}
    → get_snapshot sel s.db ≡ err x
    → snapshot sel lock s ≡ err x
snapshot_err sel lock s {x} h = elim (Result-cases (snapshot sel lock s)) [
  | inl ((b, t), e) ↦
      let same : ◌≡◌ {A = Result (Snapshot × Option TravelCredit)} (ok b) (err x) =
        sym (ap value e) ∙ value-snapshot sel lock s ∙ h in
      absurd (cc same)
  | inr (y, e) ↦
      let same : ◌≡◌ {A = Result (Snapshot × Option TravelCredit)} (err y) (err x) =
        sym (ap value e) ∙ value-snapshot sel lock s ∙ h in
      let equal : y ≡ x = cc same in e ∙ ap (λ z. err z) equal
]

module _ (inputs : Inputs) (validate : Validate) (sel : Selection) where
  -- Two snapshots and the locks lead to the validation of the first snapshot's rows.
  pub reach_validation :
      (s : Session) {a : Snapshot × Option TravelCredit}
      → get_snapshot sel s.db ≡ ok a
      → (t : Session) × (change_booking inputs validate sel s
          ≡ (lift (validate sel a.0 a.1) >>= λ v. apply_change inputs sel v) t)
        × (t.db ≡ s.db)
  unfolding change_booking lock_fares
  reach_validation s {a} h =
      let (s₁, read, same₁) = snapshot_ok sel true s h in
      let keys =
        lock_keys (a.0.old_flight_id, a.0.old_fare_class_id)
          (sel.new_flight_id, sel.new_fare_class_id) in
      let (s₂, locked, same₂) = lock_all_db keys s₁ in
      let still : s₂.db ≡ s.db = same₂ ∙ same₁ in
      let (s₃, again, same₃) = snapshot_ok sel true s₂ (ap (get_snapshot sel) still ∙ h) in
      (
        s₃,
        bind-ok (snapshot sel true) _ s read
            ∙ bind-ok (lock_all keys) _ s₁ locked
            ∙ bind-ok (snapshot sel true) _ s₂ again,
        same₃ ∙ still,
      )

  -- If the validation raises, `execute` raises the same and writes nothing.
  pub execute_refused :
      (db : Database) {a : Snapshot × Option TravelCredit} {x : Error}
      → get_snapshot sel db ≡ ok a
      → validate sel a.0 a.1 ≡ err x
      → execute inputs validate sel db ≡ (err x, db)
  unfolding execute
  execute_refused db {a} {x} seen refused =
      let (t, e, _) = reach_validation (record { db = db; locks = [] }) seen in
      let stopped = e ∙ ap (λ m. (lift m >>= λ v. apply_change inputs sel v) t) refused in
      atomically_err (change_booking inputs validate sel) db stopped

  -- If the rows to change cannot be read, `execute` raises the same and writes nothing.
  pub execute_unread :
      (db : Database) {x : Error}
      → get_snapshot sel db ≡ err x
      → execute inputs validate sel db ≡ (err x, db)
  unfolding execute change_booking
  execute_unread db h = atomically_err (change_booking inputs validate sel) db (
      bind-err (snapshot sel true) _ (record { db = db; locks = [] })
        (snapshot_err sel true (record { db = db; locks = [] }) h))
