-- ===== src/Airline/Validation.antt =====
-- `validate_rebooking_selection` of langgraph-python/app/airline/service.py. The rules are checked in
-- the order of the source, in four groups; `now` is what `datetime.now(UTC)` returns.
pub mod Rules
pub mod Decision
use agents_at_scale.Prelude.{
  ℕ, String, Bool, true, not, ◌&&◌, ◌||◌, Option, none, some, leb, if◌then◌else◌,
}
use agents_at_scale.Prelude.Eq.{◌==◌, ◌!=◌, nat_eq, string_eq}
use agents_at_scale.Prelude.Int.{ℤ, pos, int_eq, ◌+ℤ◌, ◌-ℤ◌, ltb_ℤ, leb_ℤ, max_ℤ}
use agents_at_scale.Airline.Errors.{Error, rebooking_rule, Result, ok, err, ◌>>=◌, ◌>>◌, raise_if}
use agents_at_scale.Airline.Models.{
  ReservationStatus, FlightStatus, SegmentStatus, TravelCreditStatus, TravelCredit,
  reservation_status_eq, flight_status_eq, segment_status_eq, travel_credit_status_eq,
}
use agents_at_scale.Airline.Schemas.{Selection, Snapshot, Validation}

unfoldable pub check_segment : Selection → Snapshot → Result (Unit {0})
check_segment sel snap = do
  raise_if (sel.segment_id != snap.segment_id)
      (rebooking_rule "reservation segment cannot be changed")
  raise_if (snap.reservation_status != ReservationStatus.confirmed)
      (rebooking_rule "reservation is not confirmed")
  raise_if
      (not (
        snap.segment_status == SegmentStatus.confirmed
        || snap.segment_status == SegmentStatus.changed))
      (rebooking_rule "reservation segment cannot be changed")
  raise_if
      (snap.segment_status == SegmentStatus.changed
        && snap.old_flight_id == sel.new_flight_id
        && snap.old_fare_class_id == sel.new_fare_class_id)
      (rebooking_rule "rebooking was already applied")
  raise_if (not snap.old_change_allowed) (rebooking_rule "fare change is not allowed")

unfoldable pub check_target : Selection → Snapshot → Result (Unit {0})
check_target sel snap = do
  raise_if
      (snap.target_flight_id != sel.new_flight_id
        || snap.target_fare_class_id != sel.new_fare_class_id
        || snap.target_status != FlightStatus.scheduled
        || ltb_ℤ snap.available_seats snap.passenger_count)
      (rebooking_rule "selected flight is unavailable")
  raise_if
      (snap.origin_airport != snap.target_origin
        || snap.destination_airport != snap.target_destination)
      (rebooking_rule "selected flight route does not match")
  raise_if (not snap.target_change_allowed) (rebooking_rule "fare change is not allowed")
  raise_if (snap.target_currency != snap.old_currency)
      (rebooking_rule "selected fare currency does not match")
  raise_if (leb_ℤ snap.passenger_count (pos 0))
      (rebooking_rule "passenger count must be greater than zero")

unfoldable pub invalid_credit : Selection → Snapshot → ℕ → ℕ → Option TravelCredit → Bool
invalid_credit sel snap now credit_id none = true
invalid_credit sel snap now credit_id (some credit) =
    credit.id != credit_id
    || credit.customer_id != snap.customer_id
    || credit.currency != snap.old_currency
    || ltb_ℤ credit.remaining_amount sel.travel_credit_amount
    || leb_ℤ sel.travel_credit_amount (pos 0)
    || leb credit.expires_at now
    || not (
        credit.status == TravelCreditStatus.available
        || credit.status == TravelCreditStatus.partially_used)

unfoldable pub check_credit : Selection → Snapshot → Option TravelCredit → ℕ → Result (Unit {0})
unfolding invalid_credit
check_credit sel snap credit now = elim sel.travel_credit_id [
  | some credit_id ↦
      raise_if (invalid_credit sel snap now credit_id credit)
        (rebooking_rule "travel credit is invalid")
  | none ↦ raise_if (sel.travel_credit_amount != pos 0) (rebooking_rule "travel credit is invalid")
]

unfoldable pub difference : Snapshot → ℤ
difference snap = snap.target_price -ℤ snap.old_price

unfoldable pub amount_due : Snapshot → ℤ
amount_due snap = max_ℤ (difference snap +ℤ snap.target_change_fee) (pos 0)

-- The record that the function returns.
unfoldable pub quote : Selection → Snapshot → Validation
quote sel snap = record {
  selection = sel;
  reservation_id = snap.reservation_id;
  customer_id = snap.customer_id;
  old_flight_id = snap.old_flight_id;
  old_fare_class_id = snap.old_fare_class_id;
  new_flight_id = snap.target_flight_id;
  new_fare_class_id = snap.target_fare_class_id;
  new_price = snap.target_price;
  fare_difference = difference snap;
  change_fee = snap.target_change_fee;
  amount_due = amount_due snap;
  travel_credit_used = sel.travel_credit_amount;
  currency = snap.old_currency;
  passenger_count = snap.passenger_count;
}

unfoldable pub validate_rebooking_selection :
    Selection → Snapshot → Option TravelCredit → ℕ → Result Validation
validate_rebooking_selection sel snap credit now = do
  check_segment sel snap
  check_target sel snap
  check_credit sel snap credit now
  raise_if (amount_due snap != sel.travel_credit_amount)
      (rebooking_rule "travel credit amount does not match amount due")
  ok (quote sel snap)
