-- ===== src/Airline/Rebooking/Held.antt =====
-- The fares that `execute` locks (langgraph-python/app/airline/repository/rebooking.py), in the order of locking.
use agents_at_scale.Prelude.{
  ℕ, ◌≡◌, refl, sym, ap, ◌∙◌, Bool, true, false, ◌||◌, Option, none, some, List, [], ◌∷◌, ◌++◌,
  arith, find, if◌then◌else◌, Option-cases, inl, inr, find-update, find-some, find-some,
}
use agents_at_scale.Prelude.Eq.{◌==◌, nat_eq}
use agents_at_scale.Prelude.Int.{ℤ, ◌-ℤ◌}
use mathlib.Core.List.{append_assoc}
use agents_at_scale.Airline.Errors.{Result, ok, err}
use agents_at_scale.Airline.Models.{
  FlightChange, Reservation, ReservationSegment, TravelCredit, FlightFare,
}
use agents_at_scale.Airline.Schemas.{Selection, Snapshot, Validation, RebookingResult}
use agents_at_scale.Airline.Database.{
  Database, Session, Lock, segment_row, credit_row, reservation_row, flight_row, fare_row, ◌>>=◌,
  ◌>>◌, pure, lift, >>=-eq-ok,
}
use agents_at_scale.Airline.Rebooking.{
  Inputs, lock_all, key_beq, key_ltb, lock_keys, lock_fares, move_seats, set_seats, rebook_segment,
  spend, record_change, flight_change, apply_change, change_booking,
}
use agents_at_scale.Airline.Service.{validate_at}
use agents_at_scale.Airline.Rebooking.Execution.{value_of, snapshot_db, lock_fares_db, lift_inv}
use agents_at_scale.Airline.Validation.{quote}
use agents_at_scale.Airline.Validation.Decision.{validate-quote}
use agents_at_scale.Airline.Snapshot.{
  is_fare, is_segment, is_credit, snapshot, get_snapshot, find_target, find_credit, selected_credit,
}

unfoldable pub fares : List Lock → List (ℕ × ℕ)
fares [] = []
fares (fare_row key ∷ locks) = key ∷ fares locks
fares (segment_row i ∷ locks) = fares locks
fares (credit_row i ∷ locks) = fares locks
fares (reservation_row i ∷ locks) = fares locks
fares (flight_row i ∷ locks) = fares locks

fares-++ : (xs ys : List Lock) → fares (xs ++ ys) ≡ fares xs ++ fares ys
unfolding fares
fares-++ [] ys = refl
fares-++ (fare_row key ∷ xs) ys = ap (λ l. key ∷ l) (fares-++ xs ys)
fares-++ (segment_row i ∷ xs) ys = fares-++ xs ys
fares-++ (credit_row i ∷ xs) ys = fares-++ xs ys
fares-++ (reservation_row i ∷ xs) ys = fares-++ xs ys
fares-++ (flight_row i ∷ xs) ys = fares-++ xs ys

nil_right : {A : Type 0} (xs : List A) → xs ++ [] ≡ xs
nil_right [] = refl
nil_right (x ∷ xs) = ap (λ l. x ∷ l) (nil_right xs)

with_segment : (locks : List Lock) (i : ℕ) → fares (locks ++ segment_row i ∷ []) ≡ fares locks
unfolding fares
with_segment locks i = fares-++ locks (segment_row i ∷ []) ∙ nil_right (fares locks)

with_credit : (locks : List Lock) (i : ℕ) → fares (locks ++ credit_row i ∷ []) ≡ fares locks
unfolding fares
with_credit locks i = fares-++ locks (credit_row i ∷ []) ∙ nil_right (fares locks)

with_fare :
    (locks : List Lock) (key : ℕ × ℕ) → fares (locks ++ fare_row key ∷ []) ≡ fares locks ++ key ∷ []
unfolding fares
with_fare locks key = fares-++ locks (fare_row key ∷ [])

credit_fares :
    (credit_id : Option ℕ) (s t : Session) {c : Option TravelCredit}
    → selected_credit credit_id true s ≡ ok (c, t)
    → fares t.locks ≡ fares s.locks
unfolding selected_credit find_credit
credit_fares none s t h = ground arith
credit_fares (some credit_id) s t h = grind (arith, with_credit s.locks)

snapshot_fares :
    (sel : Selection) (s t : Session) {a : Snapshot × Option TravelCredit}
    → snapshot sel true s ≡ ok (a, t)
    → fares t.locks ≡ fares s.locks
unfolding snapshot find_target
snapshot_fares sel s t {a} h =
    elim (Option-cases (find (is_segment sel.segment_id) s.db.reservation_segments)) [
      | inl missing ↦ absurd (ground (arith, h, missing))
      | inr (segment, e) ↦
          let locked : Session = record s { locks = s.locks ++ segment_row segment.id ∷ [] } in
          let rest : (c : Option TravelCredit) × (u : Session) × (selected_credit
                  sel.travel_credit_id true locked
                ≡ ok (c, u))
              × (t ≡ u) =
            read segment e (selected_credit sel.travel_credit_id true locked) refl in
          let (c, u, read, same) = rest in
          ap (λ (x : Session). fares x.locks) same
          ∙ credit_fares sel.travel_credit_id locked u read
          ∙ with_segment s.locks segment.id
    ]
  where
    read :
        (segment : ReservationSegment)
        → find (is_segment sel.segment_id) s.db.reservation_segments ≡ some segment
        → (r : Result (Option TravelCredit × Session))
        → selected_credit sel.travel_credit_id true
            (record s { locks = s.locks ++ segment_row segment.id ∷ [] })
          ≡ r
        → (c : Option TravelCredit) × (u : Session) × (selected_credit sel.travel_credit_id true
              (record s { locks = s.locks ++ segment_row segment.id ∷ [] })
            ≡ ok (c, u))
          × (t ≡ u)
    read segment e (ok (c, u)) k = (c, u, k, ground (arith, h, e, k))
    read segment e (err x) k = absurd (ground (arith, h, e, k))

present : Database → List (ℕ × ℕ) → List (ℕ × ℕ)
present db [] = []
present db (key ∷ keys) =
    let rest = present db keys in
    elim (find (is_fare key.0 key.1) db.flight_fares) [ none ↦ rest | some _ ↦ key ∷ rest ]

lock_all_fares :
    (keys : List (ℕ × ℕ)) (s t : Session)
    → lock_all keys s ≡ ok (tt, t)
    → fares t.locks ≡ fares s.locks ++ present s.db keys
unfolding lock_all present
lock_all_fares [] s t h = sym (nil_right (fares s.locks) ∙ ground arith)
lock_all_fares (key ∷ keys) s t h =
    elim (Option-cases (find (is_fare key.0 key.1) s.db.flight_fares)) [
      | inl none_found ↦
          rw (present, none_found) (lock_all_fares keys s t (rw (◌>>◌, ◌>>=◌, none_found) at h))
      | inr (fare, e) ↦
          let locked : Session = record s { locks = s.locks ++ fare_row key ∷ [] } in
          let more = lock_all_fares keys locked t (rw (◌>>◌, ◌>>=◌, e) at h) in
          rw (present, e)
            (more
              ∙ ap (λ l. l ++ present s.db keys) (with_fare s.locks key)
              ∙ append_assoc (fares s.locks) (key ∷ []) (present s.db keys))
    ]

module _ (sel : Selection) (v : Validation) (s t : Session)
    (h : move_seats sel v s ≡ ok (tt, t)) where
  -- The two fares that a change moves seats between, locked again in this order
  record Moves : Type 0 where
    pub target : FlightFare
    pub target_found :
        find (is_fare sel.new_flight_id sel.new_fare_class_id) s.db.flight_fares ≡ some target
    pub old_fare : FlightFare
    pub old_found :
        find
          (is_fare v.old_flight_id v.old_fare_class_id)
          (set_seats target (target.available_seats -ℤ v.passenger_count) s.db).flight_fares
        ≡ some old_fare
    pub locked :
        t.locks
        ≡ (s.locks ++ fare_row (target.flight_id, target.fare_class_id) ∷ [])
          ++ fare_row (v.old_flight_id, v.old_fare_class_id) ∷ []

  moves : Moves
  unfolding move_seats find_target
  moves =
      elim (Option-cases
        (find (is_fare sel.new_flight_id sel.new_fare_class_id) s.db.flight_fares)) [
          | inl e ↦ absurd (ground (arith, h, e))
          | inr (target, e) ↦
              elim (Option-cases (
                find (is_fare v.old_flight_id v.old_fare_class_id)
                  (set_seats target (target.available_seats -ℤ v.passenger_count)
                    s.db).flight_fares)) [
                      | inl e' ↦ absurd (ground (arith, h, e, e'))
                      | inr (old_fare, e') ↦ record {
                        target = target;
                        target_found = e;
                        old_fare = old_fare;
                        old_found = e';
                        locked = ground (arith, h, e, e');
                      }
                    ]
        ]

pay_fares :
    (credit_id : Option ℕ) (amount : ℤ) (change : FlightChange) (r : RebookingResult)
    (s t : Session) {r' : RebookingResult}
    → (spend credit_id amount >> (record_change change >> pure r)) s ≡ ok (r', t)
    → fares t.locks ≡ fares s.locks
unfolding spend record_change find_credit
pay_fares none amount change r s t h = ground (arith, h)
pay_fares (some credit_id) amount change r s t h =
    elim (Option-cases (find (is_credit credit_id) s.db.travel_credits)) [
      | inl e ↦ absurd (ground (arith, h, e))
      | inr (credit, e) ↦
          let same : t.locks ≡ s.locks ++ credit_row credit.id ∷ [] = ground (arith, h, e) in
          ap fares same ∙ with_credit s.locks credit.id
    ]

rebook_locks :
    (inputs : Inputs) (sel : Selection) (v : Validation) (s t : Session)
    {rows : ReservationSegment × Reservation}
    → rebook_segment inputs sel v s ≡ ok (rows, t)
    → t.locks ≡ s.locks
unfolding rebook_segment
rebook_locks inputs sel v s t h = ground (arith, h)

module _ (db : Database) (old new : ℕ × ℕ) {old_fare target : FlightFare} where
  present_both :
      find (is_fare old.0 old.1) db.flight_fares ≡ some old_fare
      → find (is_fare new.0 new.1) db.flight_fares ≡ some target
      → present db (lock_keys old new) ≡ lock_keys old new
  unfolding present lock_keys
  present_both e k = ground (arith, e, k)

-- Whether a key is among those held
is_held : ℕ × ℕ → List (ℕ × ℕ) → Bool
is_held key [] = false
is_held key (k ∷ keys) = key_beq key k || is_held key keys

-- The keys in the order of their first locking; a lock that is held is not waited for again.
unfoldable pub first_locks : List (ℕ × ℕ) → List (ℕ × ℕ) → List (ℕ × ℕ)
unfolding is_held key_beq
first_locks seen [] = []
first_locks seen (key ∷ keys) =
    let again = first_locks seen keys in
    let more = first_locks (key ∷ seen) keys in if is_held key seen then again else key ∷ more

firsts_of_change :
    (old new : ℕ × ℕ) → first_locks [] (lock_keys old new ++ new ∷ old ∷ []) ≡ lock_keys old new
unfolding first_locks lock_keys key_beq key_ltb is_held
firsts_of_change (f, c) (g, d) = ground arith

-- A fare that is found after a write to the seats was there before it.
found_before :
    (key : ℕ × ℕ) (fare : FlightFare) (seats : ℤ) (db : Database) {found : FlightFare}
    → find (is_fare key.0 key.1) (set_seats fare seats db).flight_fares ≡ some found
    → (before : FlightFare) × (find (is_fare key.0 key.1) db.flight_fares ≡ some before)
unfolding set_seats
found_before key fare seats db {found} h =
    let kept =
      find-update (λ row. row.id == fare.id) (is_fare key.0 key.1)
        (λ row. record row { available_seats = seats }) db.flight_fares (λ row. refl) in
    elim (Option-cases (find (is_fare key.0 key.1) db.flight_fares)) [
      | inl missing ↦ absurd (ground (arith, h, kept, missing))
      | inr found_there ↦ found_there
    ]

key_of_found :
    (flight_id fare_class_id : ℕ) (rows : List FlightFare) {fare : FlightFare}
    → find (is_fare flight_id fare_class_id) rows ≡ some fare
    → ◌≡◌ {A = ℕ × ℕ} (fare.flight_id, fare.fare_class_id) (flight_id, fare_class_id)
key_of_found flight_id fare_class_id rows h =
    ground (arith, find-some (is_fare flight_id fare_class_id) rows h)

-- The seats are moved between the two fares that are locked already, if the validation has them right.
moved_fares :
    (sel : Selection) (v : Validation) (s t : Session) (old : ℕ × ℕ)
    → move_seats sel v s ≡ ok (tt, t)
    → (v.old_flight_id, v.old_fare_class_id) ≡ old
    → (present s.db (lock_keys old (sel.new_flight_id, sel.new_fare_class_id))
        ≡ lock_keys old (sel.new_flight_id, sel.new_fare_class_id))
      × (fares t.locks ≡ fares s.locks ++ (sel.new_flight_id, sel.new_fare_class_id) ∷ old ∷ [])
moved_fares sel v s t old moved named =
    let m = moves sel v s t moved in
    let new : ℕ × ℕ = (sel.new_flight_id, sel.new_fare_class_id) in
    let target_key =
      key_of_found sel.new_flight_id sel.new_fare_class_id s.db.flight_fares m.target_found in
    let (before, there) =
      found_before (v.old_flight_id, v.old_fare_class_id) m.target _ s.db m.old_found in
    (
      present_both s.db old new
          (ap (λ (k : ℕ × ℕ). find (is_fare k.0 k.1) s.db.flight_fares) (sym named) ∙ there)
          m.target_found,
      ap fares m.locked
          ∙ with_fare (s.locks ++ fare_row (m.target.flight_id, m.target.fare_class_id) ∷ []) _
          ∙ ap (λ l. l ++ (v.old_flight_id, v.old_fare_class_id) ∷ []) (with_fare s.locks _)
          ∙ append_assoc (fares s.locks) (_ ∷ []) (_ ∷ [])
          ∙ ap (λ (p : (ℕ × ℕ) × (ℕ × ℕ)). fares s.locks ++ p.0 ∷ p.1 ∷ []) (pair target_key named),
    )
  where
    pair : {k k' l l' : ℕ × ℕ} → k ≡ k' → l ≡ l' → ◌≡◌ {A = (ℕ × ℕ) × (ℕ × ℕ)} (k, l) (k', l')
    pair p q = cc (p, q)

module _ (inputs : Inputs) (now : ℕ) (sel : Selection) (s t : Session) {r : RebookingResult} where
  -- In all, a change locks its two fares in their order, and then again.
  change_fares :
      change_booking inputs (validate_at now) sel s ≡ ok (r, t)
      → (old : ℕ × ℕ) × (fares t.locks
          ≡ fares s.locks
            ++ (lock_keys old (sel.new_flight_id, sel.new_fare_class_id)
                ++ (sel.new_flight_id, sel.new_fare_class_id) ∷ old ∷ []))
  unfolding change_booking apply_change lock_fares quote
  change_fares h =
      let (first, s₁, read, h₁) = >>=-eq-ok (snapshot sel true) _ s h in
      let (_, s₂, locked, h₂) =
        >>=-eq-ok (lock_fares first.0.old_flight_id first.0.old_fare_class_id sel) _ s₁ h₁ in
      let (second, s₃, read', h₃) = >>=-eq-ok (snapshot sel true) _ s₂ h₂ in
      let (v, s₄, valid, h₄) = >>=-eq-ok (lift (validate_at now sel second.0 second.1)) _ s₃ h₃ in
      let (_, s₅, moved, h₅) = >>=-eq-ok (move_seats sel v) _ s₄ h₄ in
      let (rows, s₆, booked, h₆) = >>=-eq-ok (rebook_segment inputs sel v) _ s₅ h₅ in
      let old : ℕ × ℕ = (first.0.old_flight_id, first.0.old_fare_class_id) in
      let (accepted, same) = lift_inv (validate_at now sel second.0 second.1) s₃ valid in
      let unlocked =
        lock_fares_db first.0.old_flight_id first.0.old_fare_class_id sel s₁ s₂ locked in
      let again : s₄.db ≡ s₁.db =
        ap (λ (x : Session). x.db) same ∙ snapshot_db sel true s₂ read' ∙ unlocked in
      let both : ◌≡◌ {A = Result (Snapshot × Option TravelCredit)} (ok first) (ok second) =
        sym (value_of inputs (validate_at now) sel true s read)
        ∙ ap (get_snapshot sel) (sym (unlocked ∙ snapshot_db sel true s read))
        ∙ value_of inputs (validate_at now) sel true s₂ read' in
      let one : first ≡ second = cc both in
      let quoted = (validate-quote sel second.0 second.1 now accepted).0 in
      let named : (v.old_flight_id, v.old_fare_class_id) ≡ old =
        ap (λ (w : Validation). (w.old_flight_id, w.old_fare_class_id)) quoted
        ∙ ap (λ (x : Snapshot × Option TravelCredit). (x.0.old_flight_id, x.0.old_fare_class_id))
            (sym one) in
      let (here, last) = moved_fares sel v s₄ s₅ old moved named in
      let new : ℕ × ℕ = (sel.new_flight_id, sel.new_fare_class_id) in
      let keys = lock_keys old new in
      let before : fares s₄.locks ≡ fares s.locks ++ keys =
        ap (λ (x : Session). fares x.locks) same
        ∙ snapshot_fares sel s₂ s₃ read'
        ∙ lock_all_fares keys s₁ s₂ locked
        ∙ ap (λ l. l ++ present s₁.db keys) (snapshot_fares sel s s₁ read)
        ∙ ap (λ p. fares s.locks ++ p) (ap (λ d. present d keys) (sym again) ∙ here) in
      (
        old,
        pay_fares sel.travel_credit_id sel.travel_credit_amount (flight_change inputs sel v) _ s₆ t
              h₆
            ∙ ap fares (rebook_locks inputs sel v s₅ s₆ booked)
            ∙ last
            ∙ ap (λ l. l ++ new ∷ old ∷ []) before
            ∙ append_assoc (fares s.locks) keys (new ∷ old ∷ []),
      )

-- The fares that a transaction locks, in the order in which it first asks for each.
abbrev pub locked_fares : Session → List (ℕ × ℕ)
locked_fares s = first_locks [] (fares s.locks)

-- A change that is committed asks for its two fares in the order of `lock_keys`, and for no other.
pub change_booking-lock_keys :
    (inputs : Inputs) (now : ℕ) (sel : Selection) (db : Database) (t : Session)
    {r : RebookingResult}
    → change_booking inputs (validate_at now) sel (record { db = db; locks = [] }) ≡ ok (r, t)
    → (old : ℕ × ℕ) × (locked_fares t ≡ lock_keys old (sel.new_flight_id, sel.new_fare_class_id))
unfolding fares lock_keys
change_booking-lock_keys inputs now sel db t h =
    let (old, all) = change_fares inputs now sel (record { db = db; locks = [] }) t h in
    (old, ap (first_locks []) all ∙ firsts_of_change old (sel.new_flight_id, sel.new_fare_class_id))
