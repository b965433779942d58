-- ===== src/Airline/Details.antt =====
-- The reading of a whole reservation by its booking reference
-- (`get_details_by_booking_reference` of langgraph-python/app/airline/repository/reservation.py), and `get_reservation` of the service (langgraph-python/app/airline/service.py).
use agents_at_scale.Prelude.{ℕ, String, Option, none, some, List, [], ◌∷◌, ◌++◌, find, select}
use agents_at_scale.Prelude.Eq.{◌==◌, nat_eq, string_eq}
use agents_at_scale.Airline.Errors.{
  Result, ok, ◌>>=◌, ◌>>◌, raise_if, or_raise, value_error, reservation_not_found, attribute_error,
}
use agents_at_scale.Airline.Models.{
  Customer, Passenger, ReservationPassenger, Reservation, Flight, FareClass, ReservationSegment,
}
use agents_at_scale.Airline.Schemas.{ReservationSegmentDetails, ReservationDetails}
use agents_at_scale.Airline.Database.{Database}
use agents_at_scale.Airline.Snapshot.{flight_of, fare_class_of}

unfoldable pub reservation_with : String → Database → Option Reservation
reservation_with booking_reference db =
    find (λ row. row.booking_reference == booking_reference) db.reservations

unfoldable pub customer_of : Database → ℕ → Option Customer
customer_of db customer_id = find (λ row. row.id == customer_id) db.customers

abbrev pub one_if : {A : Type 0} → Option A → List A
one_if none = []
one_if (some a) = a ∷ []

-- The passengers that the association rows lead to
unfoldable pub join_passengers : Database → List ReservationPassenger → List Passenger
join_passengers db [] = []
join_passengers db (row ∷ rows) =
    one_if (find (λ p. p.id == row.passenger_id) db.passengers) ++ join_passengers db rows

unfoldable pub passengers_of : Database → ℕ → List Passenger
unfolding join_passengers
passengers_of db reservation_id =
    join_passengers db
      (select (λ row. row.reservation_id == reservation_id) db.reservation_passengers)

unfoldable pub segments_of : Database → ℕ → List ReservationSegment
segments_of db reservation_id =
    select (λ row. row.reservation_id == reservation_id) db.reservation_segments

unfoldable pub segment_details :
    ReservationSegment → Option Flight → Option FareClass → Option ReservationSegmentDetails
segment_details segment (some flight) (some fare_class) =
    some (record { segment = segment; flight = flight; fare_class = fare_class })
segment_details _ _ _ = none

-- The ORM follows the relationships of each segment; the schema refuses one that leads nowhere.
unfoldable pub details_of :
    Database → List ReservationSegment → Result (List ReservationSegmentDetails)
unfolding segment_details
details_of db [] = ok []
details_of db (segment ∷ segments) = do
  details ←
      or_raise
        (segment_details segment (flight_of db segment.flight_id)
          (fare_class_of db segment.fare_class_id))
        attribute_error
  rest ← details_of db segments
  ok (details ∷ rest)

unfoldable pub get_details : String → Database → Result ReservationDetails
unfolding reservation_with customer_of passengers_of segments_of details_of
get_details booking_reference db = do
  reservation ←
      or_raise (reservation_with booking_reference db)
        (reservation_not_found "reservation not found")
  customer ← or_raise (customer_of db reservation.customer_id) attribute_error
  segments ← details_of db (segments_of db reservation.id)
  ok (record {
    reservation = reservation;
    customer = customer;
    passengers = passengers_of db reservation.id;
    segments = segments;
  })

-- `Service.get_reservation`, over the repository's `get_details_by_booking_reference`
unfoldable pub get_reservation :
    (String → Database → Result ReservationDetails) → String → Database → Result ReservationDetails
get_reservation read booking_reference db = do
  raise_if (booking_reference == "") (value_error "booking reference is required")
  read booking_reference db
