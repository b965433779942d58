-- ===== src/Airline/Sql/Queries.antt =====
-- The statements of the rebooking (langgraph-python/app/airline/repository/sql/queries.py). Ids are
-- primary keys and a flight has one fare for each fare class, so that a join starts from the row that
-- its key finds. `NOW()` is the time of the transaction.
use agents_at_scale.Prelude.{
  ℕ, String, Bool, ◌&&◌, Option, none, some, List, [], ◌∷◌, ◌++◌, length, find, select, update,
  if◌then◌else◌,
}
use agents_at_scale.Prelude.Eq.{◌==◌, nat_eq}
use agents_at_scale.Prelude.Int.{ℤ, pos, int_eq, ◌+ℤ◌, ◌-ℤ◌, leb_ℤ}
use agents_at_scale.Airline.Models.{
  ReservationStatus, Reservation, FlightStatus, Flight, FareClass, FlightFare, SegmentStatus,
  ReservationSegment, TravelCreditStatus, TravelCredit, FlightChange,
}
use agents_at_scale.Airline.Database.{Database}
use agents_at_scale.Airline.Snapshot.{
  is_fare, is_segment, is_reservation, is_credit, flight_of, fare_class_of,
}

-- A row of GET_REBOOKING_SEGMENT_FOR_UPDATE, by its aliases.
pub record SegmentRow : Type 0 where
  pub segment_id : ℕ
  pub reservation_id : ℕ
  pub old_flight_id : ℕ
  pub old_fare_class_id : ℕ
  pub segment_status : SegmentStatus
  pub price_paid : ℤ
  pub segment_currency : String
  pub customer_id : ℕ
  pub reservation_status : ReservationStatus
  pub old_flight_status : FlightStatus
  pub origin_airport : String
  pub destination_airport : String
  pub old_departure_at : ℕ
  pub passenger_count : ℤ
  pub old_change_allowed : Bool
  pub change_fee : ℤ

-- `SELECT COUNT(*) FROM reservation_passengers`
unfoldable pub count_passengers : ℕ → Database → ℤ
count_passengers reservation_id db =
    pos (length (select (λ row. row.reservation_id == reservation_id) db.reservation_passengers))

unfoldable pub join_segment :
    Database
    → ReservationSegment
    → Option Reservation
    → Option Flight
    → Option FareClass
    → Option SegmentRow
join_segment db rs (some r) (some old_f) (some old_fc) = some (record {
  segment_id = rs.id;
  reservation_id = rs.reservation_id;
  old_flight_id = rs.flight_id;
  old_fare_class_id = rs.fare_class_id;
  segment_status = rs.status;
  price_paid = rs.price_paid;
  segment_currency = rs.currency;
  customer_id = r.customer_id;
  reservation_status = r.status;
  old_flight_status = old_f.status;
  origin_airport = old_f.origin_airport;
  destination_airport = old_f.destination_airport;
  old_departure_at = old_f.departure_at;
  passenger_count = count_passengers rs.reservation_id db;
  old_change_allowed = old_fc.change_allowed;
  change_fee = old_fc.change_fee;
})
join_segment _ _ _ _ _ = none

-- GET_REBOOKING_SEGMENT_FOR_UPDATE
unfoldable pub get_rebooking_segment : ℕ → Database → Option SegmentRow
get_rebooking_segment segment_id db = elim (find (is_segment segment_id) db.reservation_segments) [
  | none ↦ none
  | some rs ↦
      join_segment db rs (find (is_reservation rs.reservation_id) db.reservations)
        (flight_of db rs.flight_id) (fare_class_of db rs.fare_class_id)
]

-- A row of GET_REBOOKING_TARGET_FOR_UPDATE, by its aliases.
pub record TargetRow : Type 0 where
  pub flight_id : ℕ
  pub flight_status : FlightStatus
  pub origin_airport : String
  pub destination_airport : String
  pub departure_at : ℕ
  pub flight_fare_id : ℕ
  pub fare_class_id : ℕ
  pub price : ℤ
  pub currency : String
  pub available_seats : ℤ
  pub change_allowed : Bool
  pub change_fee : ℤ

unfoldable pub join_target : FlightFare → Option Flight → Option FareClass → Option TargetRow
join_target ff (some f) (some fc) = some (record {
  flight_id = f.id;
  flight_status = f.status;
  origin_airport = f.origin_airport;
  destination_airport = f.destination_airport;
  departure_at = f.departure_at;
  flight_fare_id = ff.id;
  fare_class_id = ff.fare_class_id;
  price = ff.price;
  currency = ff.currency;
  available_seats = ff.available_seats;
  change_allowed = fc.change_allowed;
  change_fee = fc.change_fee;
})
join_target _ _ _ = none

-- GET_REBOOKING_TARGET_FOR_UPDATE
unfoldable pub get_rebooking_target : ℕ → ℕ → Database → Option TargetRow
get_rebooking_target flight_id fare_class_id db =
    elim (find (is_fare flight_id fare_class_id) db.flight_fares) [
      | none ↦ none
      | some ff ↦ join_target ff (flight_of db ff.flight_id) (fare_class_of db ff.fare_class_id)
    ]

-- GET_TRAVEL_CREDIT_FOR_UPDATE
unfoldable pub get_travel_credit : ℕ → ℕ → Database → Option TravelCredit
get_travel_credit credit_id customer_id db =
    find (λ row. is_credit credit_id row && row.customer_id == customer_id) db.travel_credits

-- DECREMENT_FLIGHT_FARE_SEATS
unfoldable pub decrement_flight_fare_seats : ℤ → ℕ → ℕ → List FlightFare → List FlightFare
decrement_flight_fare_seats seats flight_id fare_class_id =
    update (λ row. is_fare flight_id fare_class_id row && leb_ℤ seats row.available_seats)
      (λ row. record row { available_seats = row.available_seats -ℤ seats })

-- INCREMENT_FLIGHT_FARE_SEATS
unfoldable pub increment_flight_fare_seats : ℤ → ℕ → ℕ → List FlightFare → List FlightFare
increment_flight_fare_seats seats flight_id fare_class_id =
    update (is_fare flight_id fare_class_id)
      (λ row. record row { available_seats = row.available_seats +ℤ seats })

-- UPDATE_RESERVATION_SEGMENT
unfoldable pub update_reservation_segment :
    ℕ → ℕ → ℕ → ℕ → ℤ → String → List ReservationSegment → List ReservationSegment
update_reservation_segment now segment_id flight_id fare_class_id price currency =
    update (is_segment segment_id) (λ row. record row {
      flight_id = flight_id;
      fare_class_id = fare_class_id;
      price_paid = price;
      status = SegmentStatus.changed;
      currency = currency;
      updated_at = now;
    })

-- UPDATE_RESERVATION_TOTAL
unfoldable pub update_reservation_total : ℕ → ℕ → ℤ → List Reservation → List Reservation
update_reservation_total now reservation_id amount =
    update (is_reservation reservation_id)
      (λ row. record row { total_amount = row.total_amount +ℤ amount; updated_at = now })

-- CONSUME_TRAVEL_CREDIT
unfoldable pub consume_travel_credit : ℕ → ℤ → List TravelCredit → List TravelCredit
consume_travel_credit credit_id amount =
    update (λ row. is_credit credit_id row && leb_ℤ amount row.remaining_amount)
      (λ row. record row {
        remaining_amount = row.remaining_amount -ℤ amount;
        status =
            if row.remaining_amount -ℤ amount == pos 0
            then TravelCreditStatus.used
            else TravelCreditStatus.partially_used;
      })

-- CREATE_FLIGHT_CHANGE
unfoldable pub create_flight_change : FlightChange → List FlightChange → List FlightChange
create_flight_change change rows = rows ++ change ∷ []

-- A row of GET_REBOOKING_RESULT, by its aliases.
pub record ResultRow : Type 0 where
  pub segment_id : ℕ
  pub reservation_id : ℕ
  pub flight_id : ℕ
  pub fare_class_id : ℕ
  pub segment_status : SegmentStatus
  pub price_paid : ℤ
  pub currency : String
  pub booking_reference : String

unfoldable pub join_result : ReservationSegment → Option Reservation → Option ResultRow
join_result rs none = none
join_result rs (some r) = some (record {
  segment_id = rs.id;
  reservation_id = rs.reservation_id;
  flight_id = rs.flight_id;
  fare_class_id = rs.fare_class_id;
  segment_status = rs.status;
  price_paid = rs.price_paid;
  currency = rs.currency;
  booking_reference = r.booking_reference;
})

-- GET_REBOOKING_RESULT
unfoldable pub get_rebooking_result : ℕ → Database → Option ResultRow
get_rebooking_result segment_id db = elim (find (is_segment segment_id) db.reservation_segments) [
  | none ↦ none
  | some rs ↦ join_result rs (find (is_reservation rs.reservation_id) db.reservations)
]
