-- ===== src/Airline/Rebooking/Repeat.antt =====
-- After a rebooking: it verifies, and the same selection is refused.
use agents_at_scale.Prelude.{
  ℕ, ◌≡◌, refl, sym, ap, ◌∙◌, Bool, Option, none, some, arith, find, find-update_self, nat_beq_iff,
}
use agents_at_scale.Prelude.Eq.{◌==◌, nat_eq}
use agents_at_scale.Prelude.Int.{ℤ, ◌+ℤ◌, ◌-ℤ◌}
use agents_at_scale.Airline.Errors.{Error, ok, err, rebooking_rule}
use agents_at_scale.Airline.Models.{
  Flight, FareClass, FlightFare, ReservationStatus, SegmentStatus, ReservationSegment, Reservation,
  TravelCredit,
}
use agents_at_scale.Airline.Schemas.{Selection, Snapshot, Validation, RebookingResult}
use agents_at_scale.Airline.Database.{Database}
use agents_at_scale.Airline.Validation.{quote, check_segment, validate_rebooking_selection}
use agents_at_scale.Airline.Service.{orm, validate_at, execute_rebooking, verify_rebooking}
use agents_at_scale.Airline.Rebooking.{Inputs, set_seats, rebooked, charged, spent, verify}
use agents_at_scale.Airline.Snapshot.{
  is_fare, is_segment, is_reservation, is_credit, flight_of, fare_class_of,
}
use agents_at_scale.Airline.Rebooking.Effects.{spent_rows}
use agents_at_scale.Airline.Rebooking.Reading.{Rows, fields_of, CreditSeen, get_snapshot_rows}
use agents_at_scale.Airline.Rebooking.Tables.{Booking, execute_rebooking_inv}
use agents_at_scale.Airline.Rebooking.Outcome.{execute_refused}
use agents_at_scale.Airline.Rebooking.Success.{find-set_seats}
use agents_at_scale.Airline.Rebooking.Seats.{applied-fares}

-- The fourth rule: nothing is changed to what it was changed to before.
check_segment_applied :
    (sel : Selection) (snap : Snapshot)
    → sel.segment_id ≡ snap.segment_id
    → snap.reservation_status ≡ ReservationStatus.confirmed
    → snap.segment_status ≡ SegmentStatus.changed
    → snap.old_flight_id ≡ sel.new_flight_id
    → snap.old_fare_class_id ≡ sel.new_fare_class_id
    → check_segment sel snap ≡ err (rebooking_rule "rebooking was already applied")
unfolding check_segment
check_segment_applied sel snap s r c f g = ground arith

validate_applied :
    (sel : Selection) (snap : Snapshot) (credit : Option TravelCredit) (now : ℕ) {x : Error}
    → check_segment sel snap ≡ err x
    → validate_rebooking_selection sel snap credit now ≡ err x
unfolding validate_rebooking_selection
validate_applied sel snap credit now h = ground arith

fare_kept :
    (p : FlightFare → Bool) (fare : FlightFare) (n : ℤ) (db : Database) {found : FlightFare}
    → ((x : FlightFare) (k : ℤ) → p (record x { available_seats = k }) ≡ p x)
    → find p db.flight_fares ≡ some found
    → (kept : FlightFare) × (find p (set_seats fare n db).flight_fares ≡ some kept)
      × (kept.flight_id ≡ found.flight_id)
      × (kept.fare_class_id ≡ found.fare_class_id)
fare_kept p fare n db {found} keep h =
    (_, find-set_seats p fare n db keep h, ground arith, ground arith)

credit_kept :
    (credit_id : Option ℕ) (amount : ℤ) (db db' : Database) (credit : Option TravelCredit)
    → CreditSeen credit_id db credit
    → db'.travel_credits ≡ spent_rows credit_id amount db.travel_credits
    → (kept : Option TravelCredit) × CreditSeen credit_id db' kept
credit_kept none amount db db' credit seen after = (none, refl)
credit_kept (some credit_id) amount db db' none seen after = elim seen [ ]
credit_kept (some credit_id) amount db db' (some c) seen after = (
  some (spent amount c),
  ap (find (is_credit credit_id)) after
      ∙ find-update_self (is_credit credit_id) (spent amount) db.travel_credits (λ y. refl) seen,
)

module _ (inputs : Inputs) (now : ℕ) (sel : Selection) (db db' : Database) {r : RebookingResult}
    (b : Booking inputs now sel db db' r) where
  abbrev priced : Validation
  priced = quote sel (fields_of b.rows)

  segment_after :
      find (is_segment sel.segment_id) db'.reservation_segments
      ≡ some (rebooked inputs priced b.rows.segment)
  segment_after =
      ap (find (is_segment sel.segment_id)) b.tables.segments
      ∙ find-update_self (is_segment sel.segment_id) (rebooked inputs priced)
          db.reservation_segments (λ y. refl) b.rows.segment_found

  reservation_after :
      find (is_reservation b.rows.segment.reservation_id) db'.reservations
      ≡ some (charged inputs priced b.rows.reservation)
  unfolding quote
  reservation_after =
      ap (find (is_reservation b.rows.segment.reservation_id)) b.tables.reservations
      ∙ find-update_self (is_reservation b.rows.segment.reservation_id) (charged inputs priced)
          db.reservations (λ y. refl) b.rows.reservation_found

  result_lem :
      (r.segment ≡ rebooked inputs priced b.rows.segment)
      × (r.booking_reference ≡ b.rows.reservation.booking_reference)
  unfolding set_seats quote
  result_lem =
      let a = b.applied in
      let w = a.segment_rebooked in
      let id = b.rows.segment.reservation_id in
      let segments : find (is_segment sel.segment_id) a.seats.reservation_segments
          ≡ some b.rows.segment =
        ap (λ (d : Database). find (is_segment sel.segment_id) d.reservation_segments)
          a.seats_moved.after
        ∙ b.rows.segment_found in
      let reservations : find (is_reservation id) a.seats.reservations ≡ some b.rows.reservation =
        ap (λ (d : Database). find (is_reservation id) d.reservations) a.seats_moved.after
        ∙ b.rows.reservation_found in
      let found : some w.segment ≡ some b.rows.segment = sym w.segment_found ∙ segments in
      let found' : some w.reservation ≡ some b.rows.reservation =
        sym w.reservation_found ∙ reservations in
      let same : w.segment ≡ b.rows.segment = cc found in
      let same' : w.reservation ≡ b.rows.reservation = cc found' in
      (
        ap (λ (x : RebookingResult). x.segment) a.returned
            ∙ ap (λ (p : ReservationSegment × Reservation). p.0) w.returned
            ∙ ap (rebooked inputs priced) same,
        ap (λ (x : RebookingResult). x.booking_reference) a.returned
            ∙ ap (λ (p : ReservationSegment × Reservation). p.1.booking_reference) w.returned
            ∙ ap (λ (x : Reservation). x.booking_reference) same',
      )

  verify-ok :
      verify sel db'
      ≡ ok (record { change = none; segment = r.segment; booking_reference = r.booking_reference })
  unfolding verify quote
  verify-ok =
      let same_flight =
        (nat_beq_iff b.rows.target.flight_id sel.new_flight_id).1
          b.allowed.bookable.flight_selected in
      let same_fare =
        (nat_beq_iff b.rows.target.fare_class_id sel.new_fare_class_id).1
          b.allowed.bookable.fare_selected in
      rw (segment_after, same_flight, same_fare, reservation_after, result_lem.0, result_lem.1)

  target_kept :
      (kept : FlightFare) × (find (is_fare sel.new_flight_id sel.new_fare_class_id) db'.flight_fares
        ≡ some kept)
      × (kept.flight_id ≡ b.rows.target.flight_id)
      × (kept.fare_class_id ≡ b.rows.target.fare_class_id)
  target_kept =
      let is_target = is_fare sel.new_flight_id sel.new_fare_class_id in
      let m = b.applied.seats_moved in
      let n = priced.passenger_count in
      let taken = set_seats m.target (m.target.available_seats -ℤ n) db in
      let (first, found, flight, fare_class) =
        fare_kept is_target m.target (m.target.available_seats -ℤ n) db (λ x k. refl)
          b.rows.target_found in
      let (second, found', flight', fare_class') =
        fare_kept is_target m.old_fare (m.old_fare.available_seats +ℤ n) taken (λ x k. refl)
          found in
      (
        second,
        ap (find is_target) (
              applied-fares inputs sel priced b.applied
              ∙ ap (λ (d : Database). d.flight_fares) m.after)
            ∙ found',
        flight' ∙ flight,
        fare_class' ∙ fare_class,
      )

  rows_after : Rows sel db'
  unfolding flight_of fare_class_of quote
  rows_after =
      let (kept, found, flight, fare_class) = target_kept in
      let flights = λ (k : ℕ). ap (find (λ (row : Flight). row.id == k)) b.tables.flights in
      let fare_classes =
        λ (k : ℕ). ap (find (λ (row : FareClass). row.id == k)) b.tables.fare_classes in
      record {
        segment = rebooked inputs priced b.rows.segment;
        target = kept;
        reservation = charged inputs priced b.rows.reservation;
        flight = b.rows.target_flight;
        fare_class = b.rows.target_class;
        target_flight = b.rows.target_flight;
        target_class = b.rows.target_class;
        segment_found = segment_after;
        target_found = found;
        reservation_found = reservation_after;
        flight_found = flights b.rows.target.flight_id ∙ b.rows.target_flight_found;
        fare_class_found = fare_classes b.rows.target.fare_class_id ∙ b.rows.target_class_found;
        target_flight_found =
            ap (flight_of db') flight
            ∙ flights b.rows.target.flight_id
            ∙ b.rows.target_flight_found;
        target_class_found =
            ap (fare_class_of db') fare_class
            ∙ fare_classes b.rows.target.fare_class_id
            ∙ b.rows.target_class_found;
      }

  repeat_refused :
      (inputs' : Inputs) (later : ℕ)
      → execute_rebooking (some (orm inputs')) later sel db'
        ≡ (err (rebooking_rule "rebooking was already applied"), db')
  unfolding execute_rebooking rows_after quote
  repeat_refused inputs' later =
      let (credit, seen) =
        credit_kept sel.travel_credit_id sel.travel_credit_amount db db' b.credit b.credit_seen
          b.tables.credits in
      let c = b.allowed.changeable in
      let applied =
        check_segment_applied sel (fields_of rows_after) c.same_segment c.reservation_confirmed refl
          b.allowed.bookable.flight_selected b.allowed.bookable.fare_selected in
      execute_refused inputs' (validate_at later) sel db' (get_snapshot_rows rows_after credit seen)
        (validate_applied sel (fields_of rows_after) credit later applied)

-- A rebooking of the ORM repository that succeeded verifies there: the segment that `verify_rebooking` reads back is the one that was
-- returned, under the same booking reference.
pub verify-execute :
    (inputs : Inputs) (now : ℕ) (sel : Selection) (db db' : Database) {r : RebookingResult}
    → execute_rebooking (some (orm inputs)) now sel db ≡ (ok r, db')
    → verify_rebooking (some (orm inputs)) sel db'
      ≡ ok (record { change = none; segment = r.segment; booking_reference = r.booking_reference })
unfolding verify_rebooking
verify-execute inputs now sel db db' done =
    verify-ok inputs now sel db db' (execute_rebooking_inv inputs now sel db db' done)

-- The same selection cannot be applied twice in a row: at any later time it is refused as already
-- applied, and the database stays as it is.
pub execute-execute :
    (inputs inputs' : Inputs) (now later : ℕ) (sel : Selection) (db db' : Database)
    {r : RebookingResult}
    → execute_rebooking (some (orm inputs)) now sel db ≡ (ok r, db')
    → execute_rebooking (some (orm inputs')) later sel db'
      ≡ (err (rebooking_rule "rebooking was already applied"), db')
execute-execute inputs inputs' now later sel db db' done =
    repeat_refused inputs now sel db db' (execute_rebooking_inv inputs now sel db db' done) inputs'
      later
