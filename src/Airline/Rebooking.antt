-- ===== src/Airline/Rebooking.antt =====
-- The transactional repository of the ORM (langgraph-python/app/airline/repository/rebooking.py).
pub mod Effects
pub mod Repeat
pub mod Success
pub mod Outcome
pub mod Money
pub mod Tables
pub mod Reading
pub mod Seats
pub mod Locks
pub mod Held
pub mod Refinement
pub mod Tests
pub mod Execution
use agents_at_scale.Prelude.{
  ℕ, String, Bool, true, false, ◌&&◌, ◌||◌, not, Option, none, some, List, [], ◌∷◌, ◌++◌, ltb,
  nat_beq, if◌then◌else◌, length, find, select, update,
}
use agents_at_scale.Prelude.Eq.{◌==◌, ◌!=◌, nat_eq}
use agents_at_scale.Prelude.Int.{ℤ, pos, int_eq, ◌+ℤ◌, ◌-ℤ◌, ltb_ℤ}
use agents_at_scale.Airline.Errors.{
  Error, Result, ok, err, segment_not_found, flight_not_found, travel_credit_not_found,
  verification_error, value_error, attribute_error,
}
use agents_at_scale.Airline.Models.{
  Passenger, ReservationPassenger, Reservation, Flight, FareClass, FlightFare, ReservationSegment,
  SegmentStatus, segment_status_eq, TravelCreditStatus, TravelCredit, FlightChange,
}
use agents_at_scale.Airline.Schemas.{Selection, Snapshot, Validation, RebookingResult}
use agents_at_scale.Airline.Database.{
  Database, Lock, segment_row, credit_row, fare_row, Session, Tx, ◌>>=◌, ◌>>◌, pure, lift, gets,
  modify, or_raise, raise_if, hold, atomically,
}
use agents_at_scale.Airline.Snapshot.{
  is_fare, is_segment, is_reservation, is_credit, flight_of, fare_class_of, is_known,
  passenger_count, find_target, snapshot_fields, fill_snapshot, find_credit, selected_credit,
  snapshot, get_snapshot,
}

-- What `datetime.now(UTC)` and `uuid4()` return in the course of one `execute`, in order.
pub record Inputs : Type 0 where
  pub segment_updated_at : ℕ
  pub reservation_updated_at : ℕ
  pub change_id : ℕ
  pub change_created_at : ℕ

-- The two fares of a change as a sorted set. A UUID's text has a fixed width, so that the texts are
-- in the order of the numbers.
key_ltb : ℕ × ℕ → ℕ × ℕ → Bool
key_ltb (f, c) (g, d) = ltb f g || nat_beq f g && ltb c d

key_beq : ℕ × ℕ → ℕ × ℕ → Bool
key_beq (f, c) (g, d) = nat_beq f g && nat_beq c d

pub lock_keys : ℕ × ℕ → ℕ × ℕ → List (ℕ × ℕ)
unfolding key_ltb key_beq
lock_keys old new =
    if key_beq old new then old ∷ [] else if key_ltb old new then old ∷ new ∷ [] else new ∷ old ∷ []

-- A key with no fare locks nothing.
pub lock_all : List (ℕ × ℕ) → Tx (Unit {0})
lock_all [] = pure tt
lock_all (key ∷ keys) = do
  found ← gets (λ db. find (is_fare key.0 key.1) db.flight_fares)
  hold (elim found [ none ↦ false | some _ ↦ true ]) (fare_row key)
  lock_all keys

pub lock_fares : ℕ → ℕ → Selection → Tx (Unit {0})
unfolding lock_keys lock_all
lock_fares old_flight_id old_fare_class_id sel =
    lock_all
      (lock_keys (old_flight_id, old_fare_class_id) (sel.new_flight_id, sel.new_fare_class_id))

-- A loaded fare is written back under its id.
pub set_seats : FlightFare → ℤ → Database → Database
set_seats fare seats db = record db {
  flight_fares =
      update (λ row. row.id == fare.id) (λ row. record row { available_seats = seats })
        db.flight_fares;
}

-- Seats are taken from the target and given back to the original fare.
pub move_seats : Selection → Validation → Tx (Unit {0})
unfolding find_target
move_seats sel v = do
  target ← find_target sel true
  raise_if (ltb_ℤ target.available_seats v.passenger_count)
      (value_error "target flight does not have enough seats")
  modify (set_seats target (target.available_seats -ℤ v.passenger_count))
  found ← gets (λ db. find (is_fare v.old_flight_id v.old_fare_class_id) db.flight_fares)
  old_fare ← or_raise found (flight_not_found "original fare not found")
  hold true (fare_row (v.old_flight_id, v.old_fare_class_id))
  modify (set_seats old_fare (old_fare.available_seats +ℤ v.passenger_count))

abbrev pub rebooked : Inputs → Validation → ReservationSegment → ReservationSegment
rebooked inputs v segment = record segment {
  flight_id = v.new_flight_id;
  fare_class_id = v.new_fare_class_id;
  price_paid = v.new_price;
  currency = v.currency;
  status = SegmentStatus.changed;
  updated_at = inputs.segment_updated_at;
}

abbrev pub charged : Inputs → Validation → Reservation → Reservation
charged inputs v reservation = record reservation {
  total_amount =
      reservation.total_amount +ℤ (v.fare_difference +ℤ v.change_fee -ℤ v.travel_credit_used);
  updated_at = inputs.reservation_updated_at;
}

-- The writes to the segment and to its reservation.
pub rebook_segment : Inputs → Selection → Validation → Tx (ReservationSegment × Reservation)
rebook_segment inputs sel v = do
  found_segment ← gets (λ db. find (is_segment sel.segment_id) db.reservation_segments)
  found_reservation ← gets (λ db. find (is_reservation v.reservation_id) db.reservations)
  segment ← or_raise found_segment (segment_not_found "reservation segment not found")
  reservation ← or_raise found_reservation (segment_not_found "reservation segment not found")
  modify (λ db. record db {
    reservation_segments =
        update (is_segment segment.id) (rebooked inputs v) db.reservation_segments;
    reservations = update (is_reservation reservation.id) (charged inputs v) db.reservations;
  })
  pure (rebooked inputs v segment, reservation)

abbrev pub spent : ℤ → TravelCredit → TravelCredit
spent amount credit =
    let remaining = credit.remaining_amount -ℤ amount in
    record credit {
      remaining_amount = remaining;
      status =
          if remaining == pos 0 then TravelCreditStatus.used else TravelCreditStatus.partially_used;
    }

spend : Option ℕ → ℤ → Tx (Unit {0})
unfolding find_credit
spend none amount = pure tt
spend (some credit_id) amount = do
  credit ← find_credit credit_id true
  modify (λ db. record db {
    travel_credits = update (is_credit credit.id) (spent amount) db.travel_credits;
  })

pub flight_change : Inputs → Selection → Validation → FlightChange
flight_change inputs sel v = record {
  id = inputs.change_id;
  reservation_segment_id = sel.segment_id;
  old_flight_id = v.old_flight_id;
  new_flight_id = v.new_flight_id;
  old_fare_class_id = v.old_fare_class_id;
  new_fare_class_id = v.new_fare_class_id;
  fare_difference = v.fare_difference;
  change_fee = v.change_fee;
  travel_credit_used = v.travel_credit_used;
  currency = v.currency;
  created_at = inputs.change_created_at;
}

pub record_change : FlightChange → Tx (Unit {0})
record_change change =
    modify (λ db. record db { flight_changes = db.flight_changes ++ change ∷ [] })

-- What follows the validation.
pub apply_change : Inputs → Selection → Validation → Tx RebookingResult
unfolding move_seats rebook_segment spend flight_change record_change
apply_change inputs sel v = do
  move_seats sel v
  rows ← rebook_segment inputs sel v
  spend sel.travel_credit_id sel.travel_credit_amount
  record_change (flight_change inputs sel v)
  pure (record {
    change = some (flight_change inputs sel v);
    segment = rows.0;
    booking_reference = rows.1.booking_reference;
  })

-- The callback that `execute` takes.
abbrev pub Validate : Type 0
Validate = Selection → Snapshot → Option TravelCredit → Result Validation

pub change_booking : Inputs → Validate → Selection → Tx RebookingResult
unfolding snapshot lock_fares apply_change
change_booking inputs validate sel = do
  first ← snapshot sel true
  lock_fares first.0.old_flight_id first.0.old_fare_class_id sel
  second ← snapshot sel true
  v ← lift (validate sel second.0 second.1)
  apply_change inputs sel v

pub execute : Inputs → Validate → Selection → Database → Result RebookingResult × Database
unfolding change_booking
execute inputs validate sel = atomically (change_booking inputs validate sel)

abbrev booking_of : Option Reservation → ReservationSegment → Result RebookingResult
booking_of none segment = err (verification_error "rebooking reservation not found")
booking_of (some reservation) segment =
    ok (record {
      change = none;
      segment = segment;
      booking_reference = reservation.booking_reference;
    })

abbrev verified : Selection → Database → Option ReservationSegment → Result RebookingResult
verified sel db none = err (segment_not_found "reservation segment not found")
verified sel db (some segment) =
    if segment.flight_id != sel.new_flight_id
      || segment.fare_class_id != sel.new_fare_class_id
      || segment.status != SegmentStatus.changed
    then err (verification_error "rebooking verification failed")
    else booking_of (find (is_reservation segment.reservation_id) db.reservations) segment

pub verify : Selection → Database → Result RebookingResult
verify sel db = verified sel db (find (is_segment sel.segment_id) db.reservation_segments)
