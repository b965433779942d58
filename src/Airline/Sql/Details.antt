-- ===== src/Airline/Sql/Details.antt =====
-- The reading of a reservation and of a segment over plain statements
-- (langgraph-python/app/airline/repository/sql/reservation.py, rows.py and queries.py).
use agents_at_scale.Prelude.{
  ℕ, String, Bool, ◌++◌, Option, none, some, List, [], ◌∷◌, leb, find, select, map,
}
use agents_at_scale.Prelude.Eq.{◌==◌, nat_eq, string_eq}
use agents_at_scale.Prelude.Int.{ℤ}
use agents_at_scale.Airline.Errors.{
  Result, ok, ◌>>=◌, or_raise, reservation_not_found, segment_not_found, attribute_error,
}
use agents_at_scale.Airline.Models.{
  Customer, Passenger, ReservationPassenger, Reservation, Flight, FlightStatus, FareClass,
  ReservationSegment, SegmentStatus,
}
use agents_at_scale.Airline.Schemas.{ReservationSegmentDetails, ReservationDetails}
use agents_at_scale.Airline.Database.{Database}
use agents_at_scale.Airline.Snapshot.{is_reservation, is_segment, flight_of, fare_class_of}
use agents_at_scale.Airline.Lookup.{order_by}
use agents_at_scale.Airline.Details.{one_if}

-- GET_RESERVATION_BY_BOOKING_REFERENCE
unfoldable pub get_reservation_by_booking_reference : String → Database → Option Reservation
get_reservation_by_booking_reference booking_reference db =
    find (λ row. row.booking_reference == booking_reference) db.reservations

unfoldable pub join_customer : Database → Option Reservation → Option Customer
join_customer db none = none
join_customer db (some r) = find (λ row. row.id == r.customer_id) db.customers

-- GET_RESERVATION_CUSTOMER
unfoldable pub get_reservation_customer : ℕ → Database → Option Customer
get_reservation_customer reservation_id db =
    join_customer db (find (is_reservation reservation_id) db.reservations)

unfoldable pub join_passengers : Database → List ReservationPassenger → List Passenger
join_passengers db [] = []
join_passengers db (rp ∷ rows) =
    one_if (find (λ p. p.id == rp.passenger_id) db.passengers) ++ join_passengers db rows

-- GET_PASSENGERS_BY_RESERVATION
unfoldable pub get_passengers_by_reservation : ℕ → Database → List Passenger
get_passengers_by_reservation reservation_id db =
    order_by (λ x y. leb x.id y.id)
      (join_passengers db
        (select (λ rp. rp.reservation_id == reservation_id) db.reservation_passengers))

-- A row of GET_SEGMENT_DETAILS_BY_RESERVATION, by its aliases.
pub record SegmentDetailsRow : Type 0 where
  pub segment_id : ℕ
  pub segment_reservation_id : ℕ
  pub segment_flight_id : ℕ
  pub segment_fare_class_id : ℕ
  pub segment_status : SegmentStatus
  pub segment_price_paid : ℤ
  pub segment_currency : String
  pub segment_created_at : ℕ
  pub segment_updated_at : ℕ
  pub flight_id : ℕ
  pub flight_number : String
  pub origin_airport : String
  pub destination_airport : String
  pub departure_at : ℕ
  pub arrival_at : ℕ
  pub flight_status : FlightStatus
  pub capacity : ℤ
  pub flight_created_at : ℕ
  pub flight_updated_at : ℕ
  pub fare_class_id : ℕ
  pub code : String
  pub name : String
  pub change_allowed : Bool
  pub cancellation_allowed : Bool
  pub change_fee : ℤ
  pub cancellation_fee : ℤ
  pub fare_class_created_at : ℕ

abbrev pub details_row : ReservationSegment → Flight → FareClass → SegmentDetailsRow
details_row rs f fc = record {
  segment_id = rs.id;
  segment_reservation_id = rs.reservation_id;
  segment_flight_id = rs.flight_id;
  segment_fare_class_id = rs.fare_class_id;
  segment_status = rs.status;
  segment_price_paid = rs.price_paid;
  segment_currency = rs.currency;
  segment_created_at = rs.created_at;
  segment_updated_at = rs.updated_at;
  flight_id = f.id;
  flight_number = f.flight_number;
  origin_airport = f.origin_airport;
  destination_airport = f.destination_airport;
  departure_at = f.departure_at;
  arrival_at = f.arrival_at;
  flight_status = f.status;
  capacity = f.capacity;
  flight_created_at = f.created_at;
  flight_updated_at = f.updated_at;
  fare_class_id = fc.id;
  code = fc.code;
  name = fc.name;
  change_allowed = fc.change_allowed;
  cancellation_allowed = fc.cancellation_allowed;
  change_fee = fc.change_fee;
  cancellation_fee = fc.cancellation_fee;
  fare_class_created_at = fc.created_at;
}

unfoldable pub join_details :
    ReservationSegment → Option Flight → Option FareClass → List SegmentDetailsRow
join_details rs (some f) (some fc) = details_row rs f fc ∷ []
join_details rs _ _ = []

unfoldable pub join_segments : Database → List ReservationSegment → List SegmentDetailsRow
join_segments db [] = []
join_segments db (rs ∷ rows) =
    join_details rs (flight_of db rs.flight_id) (fare_class_of db rs.fare_class_id)
    ++ join_segments db rows

-- GET_SEGMENT_DETAILS_BY_RESERVATION
unfoldable pub get_segment_details_by_reservation : ℕ → Database → List SegmentDetailsRow
get_segment_details_by_reservation reservation_id db =
    order_by (λ x y. leb x.segment_id y.segment_id)
      (join_segments db
        (select (λ rs. rs.reservation_id == reservation_id) db.reservation_segments))

-- The schema of a row, with `rows.flight` and `rows.fare_class`.
abbrev pub details_of_row : SegmentDetailsRow → ReservationSegmentDetails
details_of_row row = record {
  segment = record {
    id = row.segment_id;
    reservation_id = row.segment_reservation_id;
    flight_id = row.segment_flight_id;
    fare_class_id = row.segment_fare_class_id;
    status = row.segment_status;
    price_paid = row.segment_price_paid;
    currency = row.segment_currency;
    created_at = row.segment_created_at;
    updated_at = row.segment_updated_at;
  };
  flight = record {
    id = row.flight_id;
    flight_number = row.flight_number;
    origin_airport = row.origin_airport;
    destination_airport = row.destination_airport;
    departure_at = row.departure_at;
    arrival_at = row.arrival_at;
    status = row.flight_status;
    capacity = row.capacity;
    created_at = row.flight_created_at;
    updated_at = row.flight_updated_at;
  };
  fare_class = record {
    id = row.fare_class_id;
    code = row.code;
    name = row.name;
    change_allowed = row.change_allowed;
    cancellation_allowed = row.cancellation_allowed;
    change_fee = row.change_fee;
    cancellation_fee = row.cancellation_fee;
    created_at = row.fare_class_created_at;
  };
}

-- `get_details_by_booking_reference`. `CustomerSchema(**None)` raises.
unfoldable pub get_details_by_booking_reference : String → Database → Result ReservationDetails
get_details_by_booking_reference booking_reference db = do
  reservation ←
      or_raise (get_reservation_by_booking_reference booking_reference db)
        (reservation_not_found "reservation not found")
  customer ← or_raise (get_reservation_customer reservation.id db) attribute_error
  ok (record {
    reservation = reservation;
    customer = customer;
    passengers = get_passengers_by_reservation reservation.id db;
    segments = map details_of_row (get_segment_details_by_reservation reservation.id db);
  })

-- `SegmentWithFareClassSchema`
pub record SegmentWithFareClass : Type 0 where
  pub segment : ReservationSegment
  pub fare_class : FareClass

unfoldable pub join_fare_class : ReservationSegment → Option FareClass → Option SegmentWithFareClass
join_fare_class rs none = none
join_fare_class rs (some fc) = some (record { segment = rs; fare_class = fc })

-- GET_SEGMENT_BY_ID
unfoldable pub segment_with_fare_class : ℕ → Database → Option SegmentWithFareClass
segment_with_fare_class segment_id db =
    elim (find (is_segment segment_id) db.reservation_segments) [
      | none ↦ none
      | some rs ↦ join_fare_class rs (fare_class_of db rs.fare_class_id)
    ]

-- `get_segment_by_id`
unfoldable pub get_segment_by_id : ℕ → Database → Result SegmentWithFareClass
get_segment_by_id segment_id db =
    or_raise (segment_with_fare_class segment_id db)
      (segment_not_found "reservation segment not found")
