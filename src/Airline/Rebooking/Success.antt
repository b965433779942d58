-- ===== src/Airline/Rebooking/Success.antt =====
-- A validated change of rows that exist goes through.
use agents_at_scale.Prelude.{
  ℕ, ◌≡◌, refl, ap, ◌∙◌, Bool, false, Option, none, some, [], ◌∷◌, ◌++◌, arith, find, find-update,
  update, if◌then◌else◌,
}
use agents_at_scale.Prelude.Eq.{◌==◌, nat_eq}
use agents_at_scale.Prelude.Int.{ℤ, ◌-ℤ◌, ◌≤ℤ◌, ltb_ℤ}
use agents_at_scale.Airline.Errors.{ok}
use agents_at_scale.Airline.Models.{FlightFare, ReservationSegment, Reservation, TravelCredit}
use agents_at_scale.Airline.Schemas.{Selection, Validation, RebookingResult}
use agents_at_scale.Airline.Database.{
  Database, Session, fare_row, credit_row, ◌>>=◌, lift, atomically_ok,
}
use agents_at_scale.Airline.Validation.{quote}
use agents_at_scale.Airline.Validation.Decision.{IsAllowed, validate-iff-IsAllowed}
use agents_at_scale.Airline.Service.{orm, validate_at, execute_rebooking}
use agents_at_scale.Airline.Rebooking.{
  Inputs, set_seats, move_seats, rebook_segment, rebooked, charged, spent, spend, record_change,
  apply_change, change_booking, execute,
}
use agents_at_scale.Airline.Snapshot.{is_fare, is_segment, is_reservation, is_credit}
use agents_at_scale.Airline.Rebooking.Effects.{moved}
use agents_at_scale.Airline.Rebooking.Reading.{Rows, fields_of, CreditSeen, get_snapshot_rows}
use agents_at_scale.Airline.Rebooking.Outcome.{bind-ok, reach_validation}

-- Writing seats leaves every fare where it is found.
pub find-set_seats :
    (p : FlightFare → Bool) (fare : FlightFare) (n : ℤ) (db : Database) {found : FlightFare}
    → ((x : FlightFare) (k : ℤ) → p (record x { available_seats = k }) ≡ p x)
    → find p db.flight_fares ≡ some found
    → find p (set_seats fare n db).flight_fares
      ≡ some (if found.id == fare.id then record found { available_seats = n } else found)
unfolding set_seats
find-set_seats p fare n db {found} keep h = rw (
  find-update (λ row. row.id == fare.id) p (λ row. record row { available_seats = n })
      db.flight_fares (λ x. keep x n),
  h,
)

move_seats_total :
    (sel : Selection) (v : Validation) (s : Session) {target old_fare : FlightFare}
    → find (is_fare sel.new_flight_id sel.new_fare_class_id) s.db.flight_fares ≡ some target
    → v.passenger_count ≤ℤ target.available_seats
    → find (is_fare v.old_flight_id v.old_fare_class_id) s.db.flight_fares ≡ some old_fare
    → (t : Session) × (move_seats sel v s ≡ ok (tt, t))
      × ((old : FlightFare) × (t.db ≡ moved sel v target old s.db))
unfolding move_seats
move_seats_total sel v s {target} {old_fare} found room old_found =
    let left = target.available_seats -ℤ v.passenger_count in
    let old =
      if old_fare.id == target.id then record old_fare { available_seats = left } else old_fare in
    let enough : ltb_ℤ target.available_seats v.passenger_count ≡ false = ground arith in
    let after =
      find-set_seats (is_fare v.old_flight_id v.old_fare_class_id) target left s.db (λ x k. refl)
        old_found in
    (
      record {
        db = moved sel v target old s.db;
        locks =
            (s.locks ++ fare_row (target.flight_id, target.fare_class_id) ∷ [])
            ++ fare_row (v.old_flight_id, v.old_fare_class_id) ∷ [];
      },
      ground arith,
      (old, refl),
    )

rebook_segment_total :
    (inputs : Inputs) (sel : Selection) (v : Validation) (s : Session)
    {segment : ReservationSegment} {reservation : Reservation}
    → find (is_segment sel.segment_id) s.db.reservation_segments ≡ some segment
    → find (is_reservation v.reservation_id) s.db.reservations ≡ some reservation
    → (t : Session) × (rebook_segment inputs sel v s
        ≡ ok ((rebooked inputs v segment, reservation), t))
      × (t.db.travel_credits ≡ s.db.travel_credits)
unfolding rebook_segment
rebook_segment_total inputs sel v s {segment} {reservation} f g = (
  record s {
    db = record s.db {
      reservation_segments =
          update (is_segment segment.id) (rebooked inputs v) s.db.reservation_segments;
      reservations = update (is_reservation reservation.id) (charged inputs v) s.db.reservations;
    };
  },
  ground arith,
  refl,
)

spend_total :
    (credit_id : Option ℕ) (amount : ℤ) (s : Session) (credit : Option TravelCredit)
    → CreditSeen credit_id s.db credit
    → (t : Session) × (spend credit_id amount s ≡ ok (tt, t))
unfolding spend
spend_total none amount s credit h = (s, refl)
spend_total (some credit_id) amount s none h = elim h [ ]
spend_total (some credit_id) amount s (some c) h = (
  record s {
    db = record s.db {
      travel_credits = update (is_credit c.id) (spent amount) s.db.travel_credits;
    };
    locks = s.locks ++ credit_row c.id ∷ [];
  },
  ground arith,
)

CreditSeen-same :
    (credit_id : Option ℕ) (db db' : Database) (credit : Option TravelCredit)
    → db'.travel_credits ≡ db.travel_credits
    → CreditSeen credit_id db credit
    → CreditSeen credit_id db' credit
CreditSeen-same none db db' credit same h = h
CreditSeen-same (some credit_id) db db' none same h = h
CreditSeen-same (some credit_id) db db' (some c) same h = ap (find (is_credit credit_id)) same ∙ h

module _ (inputs : Inputs) (sel : Selection) (v : Validation) where
  apply_change_total :
      (s : Session) (credit : Option TravelCredit) {target old_fare : FlightFare}
      {segment : ReservationSegment} {reservation : Reservation}
      → find (is_fare sel.new_flight_id sel.new_fare_class_id) s.db.flight_fares ≡ some target
      → v.passenger_count ≤ℤ target.available_seats
      → find (is_fare v.old_flight_id v.old_fare_class_id) s.db.flight_fares ≡ some old_fare
      → find (is_segment sel.segment_id) s.db.reservation_segments ≡ some segment
      → find (is_reservation v.reservation_id) s.db.reservations ≡ some reservation
      → CreditSeen sel.travel_credit_id s.db credit
      → (r : RebookingResult) × (t : Session) × (apply_change inputs sel v s ≡ ok (r, t))
  unfolding apply_change record_change set_seats
  apply_change_total s credit {reservation = reservation} found room old_found segment_found
        reservation_found seen =
      let (s₁, moved₁, (old, after)) = move_seats_total sel v s found room old_found in
      let (s₂, booked, credits) =
        rebook_segment_total inputs sel v s₁
          (ap (λ (db : Database). find (is_segment sel.segment_id) db.reservation_segments) after
            ∙ segment_found)
          (ap (λ (db : Database). find (is_reservation v.reservation_id) db.reservations) after
            ∙ reservation_found) in
      let same : s₂.db.travel_credits ≡ s.db.travel_credits =
        credits ∙ ap (λ (db : Database). db.travel_credits) after in
      let (s₃, paid) =
        spend_total sel.travel_credit_id sel.travel_credit_amount s₂ credit
          (CreditSeen-same sel.travel_credit_id s.db s₂.db credit same seen) in
      (
        _,
        _,
        bind-ok (move_seats sel v) _ s moved₁
            ∙ bind-ok (rebook_segment inputs sel v) _ s₁ booked
            ∙ bind-ok (spend sel.travel_credit_id sel.travel_credit_amount) _ s₂ paid,
      )

-- A selection that meets the rules goes through, if the rows that it reads are there and so is the
-- fare that it gives up: the second test on the seats, inside the transaction, never fails.
pub execute_rebooking_succeeds :
    (inputs : Inputs) (now : ℕ) (sel : Selection) (db : Database) (rows : Rows sel db)
    (credit : Option TravelCredit) {old_fare : FlightFare}
    → CreditSeen sel.travel_credit_id db credit
    → IsAllowed sel (fields_of rows) credit now
    → find (is_fare rows.segment.flight_id rows.segment.fare_class_id) db.flight_fares
      ≡ some old_fare
    → (r : RebookingResult) × (db' : Database) × (execute_rebooking (some (orm inputs)) now sel db
        ≡ (ok r, db'))
unfolding execute_rebooking execute quote
execute_rebooking_succeeds inputs now sel db rows credit seen allowed old_found =
    let snap = fields_of rows in
    let start : Session = record { db = db; locks = [] } in
    let v = quote sel snap in
    let read = get_snapshot_rows rows credit seen in
    let valid = (validate-iff-IsAllowed sel snap credit now).1 allowed in
    let (s, reached, same) = reach_validation inputs (validate_at now) sel start read in
    let (r, t, done) =
      apply_change_total inputs sel v s credit
        (ap
            (λ (d : Database).
              find (is_fare sel.new_flight_id sel.new_fare_class_id) d.flight_fares)
            same
          ∙ rows.target_found)
        allowed.bookable.room
        (ap (λ (d : Database). find (is_fare v.old_flight_id v.old_fare_class_id) d.flight_fares)
            same
          ∙ old_found)
        (ap (λ (d : Database). find (is_segment sel.segment_id) d.reservation_segments) same
          ∙ rows.segment_found)
        (ap (λ (d : Database). find (is_reservation v.reservation_id) d.reservations) same
          ∙ rows.reservation_found)
        (CreditSeen-same sel.travel_credit_id db s.db credit
          (ap (λ (d : Database). d.travel_credits) same) seen) in
    let committed =
      atomically_ok (change_booking inputs (validate_at now) sel) db
        (reached ∙ ap (λ m. (lift m >>= λ w. apply_change inputs sel w) s) valid ∙ done) in
    (r, t.db, committed)
