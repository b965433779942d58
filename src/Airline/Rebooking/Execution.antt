-- ===== src/Airline/Rebooking/Execution.antt =====
-- `execute` as a whole: it reads one snapshot, validates it, and applies the change.
use agents_at_scale.Prelude.{
  ℕ, ◌≡◌, refl, ◌∙◌, ap, sym, subst, Bool, true, false, Option, none, some, List, [], ◌∷◌, ◌++◌,
  arith, if◌then◌else◌, find, inl, inr, ◌⊎◌,
}
use agents_at_scale.Airline.Errors.{Result, ok, err, Error}
use agents_at_scale.Airline.Models.{TravelCredit}
use agents_at_scale.Airline.Schemas.{Selection, Snapshot, Validation, RebookingResult}
use agents_at_scale.Airline.Database.{
  Database, Session, fare_row, Tx, ◌>>=◌, lift, atomically_inv, atomically_cases, >>=-eq-ok,
}
use agents_at_scale.Airline.Rebooking.{
  Inputs, Validate, lock_all, lock_keys, lock_fares, apply_change, change_booking, execute,
}
use agents_at_scale.Airline.Snapshot.{is_fare, snapshot, get_snapshot}
use agents_at_scale.Airline.Rebooking.Effects.{Applied, apply_change_inv}

abbrev pub value : {A : Type 0} → Result (A × Session) → Result A
value (ok (a, s)) = ok a
value (err e) = err e

pub Result-cases :
    {A : Type 0} (r : Result A) → ((a : A) × (r ≡ ok a)) ⊎ ((e : Error) × (r ≡ err e))
Result-cases (ok a) = inl (a, refl)
Result-cases (err e) = inr (e, refl)

module _ (sel : Selection) (lock : Bool) (s : Session) where
  -- A snapshot depends on the rows alone, whatever it locks.
  pub value-snapshot : value (snapshot sel lock s) ≡ get_snapshot sel s.db
  unfolding get_snapshot
  value-snapshot = ground arith

  pub snapshot_db :
      {a : Snapshot × Option TravelCredit} {t : Session}
      → snapshot sel lock s ≡ ok (a, t)
      → t.db ≡ s.db
  unfolding snapshot
  snapshot_db h = ground arith

abbrev held : ℕ × ℕ → Session → Session
held key s =
    if elim (find (is_fare key.0 key.1) s.db.flight_fares) [ none ↦ false | some _ ↦ true ]
    then record s { locks = s.locks ++ fare_row key ∷ [] }
    else s

held_db : (key : ℕ × ℕ) (s : Session) → (held key s).db ≡ s.db
held_db key s = ground arith

-- Locking fares cannot fail and writes nothing.
pub lock_all_db :
    (keys : List (ℕ × ℕ)) (s : Session)
    → (t : Session) × (lock_all keys s ≡ ok (tt, t)) × (t.db ≡ s.db)
unfolding lock_all
lock_all_db [] s = (s, refl, refl)
lock_all_db (key ∷ keys) s =
    let (t, e, same) = lock_all_db keys (held key s) in (t, e, same ∙ held_db key s)

pub lock_fares_db :
    (flight_id fare_class_id : ℕ) (sel : Selection) (s t : Session)
    → lock_fares flight_id fare_class_id sel s ≡ ok (tt, t)
    → t.db ≡ s.db
unfolding lock_fares
lock_fares_db flight_id fare_class_id sel s t h =
    let (u, e, same) =
      lock_all_db (lock_keys (flight_id, fare_class_id) (sel.new_flight_id, sel.new_fare_class_id))
        s in
    let equal : t ≡ u = cc in ap (λ (x : Session). x.db) equal ∙ same

pub lift_inv :
    {A : Type 0} (m : Result A) (s : Session) {a : A} {t : Session}
    → lift m s ≡ ok (a, t)
    → (m ≡ ok a) × (t ≡ s)
lift_inv (ok a) s h = ground arith
lift_inv (err e) s h = absurd (cc)

module _ (inputs : Inputs) (validate : Validate) (sel : Selection) where
  -- A change that succeeded was validated on the snapshot of the database, and then applied to it.
  pub record Executed (db db' : Database) (r : RebookingResult) : Type 0 where
    pub snap : Snapshot
    pub credit : Option TravelCredit
    pub v : Validation
    pub seen : get_snapshot sel db ≡ ok (snap, credit)
    pub valid : validate sel snap credit ≡ ok v
    pub applied : Applied inputs sel v db db' r

  pub value_of :
      (lock : Bool) (s : Session) {a : Snapshot × Option TravelCredit} {t : Session}
      → snapshot sel lock s ≡ ok (a, t)
      → get_snapshot sel s.db ≡ ok a
  value_of lock s {a} h = sym (value-snapshot sel lock s) ∙ ap value h

  pub from_snapshot : Tx RebookingResult
  from_snapshot = do
    second ← snapshot sel true
    v ← lift (validate sel second.0 second.1)
    apply_change inputs sel v

  from_snapshot_inv :
      (s t : Session) {r : RebookingResult} → from_snapshot s ≡ ok (r, t) → Executed s.db t.db r
  unfolding from_snapshot
  from_snapshot_inv s t {r} h =
      let (second, u, read, h₁) = >>=-eq-ok (snapshot sel true) _ s h in
      let (v, w, valid, h₂) = >>=-eq-ok (lift (validate sel second.0 second.1)) _ u h₁ in
      let (accepted, same) = lift_inv (validate sel second.0 second.1) u valid in
      let unchanged : w.db ≡ s.db = ap (λ (x : Session). x.db) same ∙ snapshot_db sel true s read in
      record {
        snap = second.0;
        credit = second.1;
        v = v;
        seen = value_of true s read;
        valid = accepted;
        applied =
            subst (λ db. Applied inputs sel v db t.db r) unchanged
              (apply_change_inv inputs sel v w t h₂);
      }

  pub change_booking_inv :
      (s t : Session) {r : RebookingResult}
      → change_booking inputs validate sel s ≡ ok (r, t)
      → Executed s.db t.db r
  unfolding change_booking from_snapshot
  change_booking_inv s t {r} h =
      let (first, s₁, read, h₁) = >>=-eq-ok (snapshot sel true) _ s h in
      let (_, s₂, locked, h₂) =
        >>=-eq-ok (lock_fares first.0.old_flight_id first.0.old_fare_class_id sel) _ s₁ h₁ in
      subst (λ db. Executed db t.db r)
        (lock_fares_db first.0.old_flight_id first.0.old_fare_class_id sel s₁ s₂ locked
          ∙ snapshot_db sel true s read)
        (from_snapshot_inv s₂ t h₂)

  pub execute_inv :
      (db db' : Database) {r : RebookingResult}
      → execute inputs validate sel db ≡ (ok r, db')
      → Executed db db' r
  unfolding execute
  execute_inv db db' {r} h =
      let (s, done, same) = atomically_inv (change_booking inputs validate sel) db db' h in
      subst (λ d. Executed db d r) same (change_booking_inv (record { db = db; locks = [] }) s done)

  -- What a database has, and what every change that is applied to it leaves, `execute` leaves.
  pub execute_cases {ℓ} :
      (P : Database → Type ℓ) (db : Database)
      → P db
      → ((db' : Database) (r : RebookingResult) → Executed db db' r → P db')
      → P (execute inputs validate sel db).1
  unfolding execute
  execute_cases P db before after =
      atomically_cases P (change_booking inputs validate sel) db before
        (λ r s h. after s.db r (change_booking_inv (record { db = db; locks = [] }) s h))
