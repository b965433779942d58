-- ===== src/Airline/Validation/Rules.antt =====
-- The rules of a rebooking, said without the order in which the code checks them.
use agents_at_scale.Prelude.{ℕ, ◌≡◌, ◌↔◌, ◌⊎◌, ◌<◌, true, Option, none, some, arith}
use agents_at_scale.Prelude.Eq.{string_eq}
use agents_at_scale.Prelude.Int.{ℤ, pos, ◌≤ℤ◌, ◌<ℤ◌}
use agents_at_scale.Airline.Errors.{ok}
use agents_at_scale.Airline.Models.{
  ReservationStatus, FlightStatus, SegmentStatus, TravelCreditStatus, TravelCredit,
}
use agents_at_scale.Airline.Schemas.{Selection, Snapshot}
use agents_at_scale.Airline.Validation.{check_segment, check_target, check_credit}
use text.Mathlib.TextEquality.{eq_iff}

-- The booking may be changed at all, and not to what it already was changed to.
pub record IsChangeable (sel : Selection) (snap : Snapshot) : Type 0 where
  pub same_segment : sel.segment_id ≡ snap.segment_id
  pub reservation_confirmed : snap.reservation_status ≡ ReservationStatus.confirmed
  pub segment_active :
      (snap.segment_status ≡ SegmentStatus.confirmed)
      ⊎ (snap.segment_status ≡ SegmentStatus.changed)
  pub not_applied : ¬ (
      (snap.segment_status ≡ SegmentStatus.changed)
      × (snap.old_flight_id ≡ sel.new_flight_id)
      × (snap.old_fare_class_id ≡ sel.new_fare_class_id))
  pub old_fare_changeable : snap.old_change_allowed ≡ true

-- The target is what was selected, on the same route, in the same currency, with room for everyone.
pub record IsBookable (sel : Selection) (snap : Snapshot) : Type 0 where
  pub flight_selected : snap.target_flight_id ≡ sel.new_flight_id
  pub fare_selected : snap.target_fare_class_id ≡ sel.new_fare_class_id
  pub scheduled : snap.target_status ≡ FlightStatus.scheduled
  pub room : snap.passenger_count ≤ℤ snap.available_seats
  pub same_origin : snap.origin_airport ≡ snap.target_origin
  pub same_destination : snap.destination_airport ≡ snap.target_destination
  pub fare_changeable : snap.target_change_allowed ≡ true
  pub same_currency : snap.target_currency ≡ snap.old_currency
  pub someone_travels : pos 0 <ℤ snap.passenger_count

-- A credit of the same customer and currency that has not expired and holds a positive amount.
pub record IsUsable (credit_id : ℕ) (amount : ℤ) (snap : Snapshot) (now : ℕ) (c : TravelCredit)
    : Type 0 where
  pub selected : c.id ≡ credit_id
  pub owned : c.customer_id ≡ snap.customer_id
  pub currency : c.currency ≡ snap.old_currency
  pub enough : amount ≤ℤ c.remaining_amount
  pub positive : pos 0 <ℤ amount
  pub unexpired : now < c.expires_at
  pub open_status :
      (c.status ≡ TravelCreditStatus.available) ⊎ (c.status ≡ TravelCreditStatus.partially_used)

abbrev pub IsUsable? : ℕ → ℤ → Snapshot → ℕ → Option TravelCredit → Type 0
IsUsable? credit_id amount snap now none = ⊥
IsUsable? credit_id amount snap now (some c) = IsUsable credit_id amount snap now c

abbrev pub CreditFits : Option ℕ → ℤ → Snapshot → ℕ → Option TravelCredit → Type 0
CreditFits none amount snap now credit = amount ≡ pos 0
CreditFits (some credit_id) amount snap now credit = IsUsable? credit_id amount snap now credit

pub check_segment_iff :
    (sel : Selection) (snap : Snapshot) → (check_segment sel snap ≡ ok tt) ↔ IsChangeable sel snap
unfolding check_segment
check_segment_iff sel snap = ground arith

pub check_target_iff :
    (sel : Selection) (snap : Snapshot) → (check_target sel snap ≡ ok tt) ↔ IsBookable sel snap
unfolding check_target
check_target_iff sel snap = ground (
  arith,
  eq_iff snap.origin_airport snap.target_origin,
  eq_iff snap.destination_airport snap.target_destination,
  eq_iff snap.target_currency snap.old_currency,
)

pub check_credit_iff :
    (sel : Selection) (snap : Snapshot) (credit : Option TravelCredit) (now : ℕ)
    → (check_credit sel snap credit now ≡ ok tt)
      ↔ CreditFits sel.travel_credit_id sel.travel_credit_amount snap now credit
unfolding check_credit
check_credit_iff sel snap none now = ground arith
check_credit_iff sel snap (some c) now = ground (arith, eq_iff c.currency snap.old_currency)
