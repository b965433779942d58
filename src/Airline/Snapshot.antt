-- ===== src/Airline/Snapshot.antt =====
-- What a rebooking reads first (langgraph-python/app/airline/repository/rebooking.py): `_target`, `_snapshot` and
-- `get_snapshot`.
use agents_at_scale.Prelude.{ℕ, Bool, true, false, ◌&&◌, Option, none, some, length, find, select}
use agents_at_scale.Prelude.Eq.{◌==◌, nat_eq}
use agents_at_scale.Prelude.Int.{ℤ, pos, int_eq}
use agents_at_scale.Airline.Errors.{
  Result, ok, err, segment_not_found, flight_not_found, travel_credit_not_found, attribute_error,
}
use agents_at_scale.Airline.Models.{
  ReservationPassenger, Reservation, Flight, FareClass, FlightFare, ReservationSegment,
  segment_status_eq, TravelCredit,
}
use agents_at_scale.Airline.Schemas.{Selection, Snapshot}
use agents_at_scale.Airline.Database.{
  Database, segment_row, credit_row, fare_row, Tx, ◌>>=◌, ◌>>◌, pure, lift, gets, or_raise, hold,
  atomically,
}

abbrev pub is_fare : ℕ → ℕ → FlightFare → Bool
is_fare flight_id fare_class_id fare =
    fare.flight_id == flight_id && fare.fare_class_id == fare_class_id

abbrev pub is_segment : ℕ → ReservationSegment → Bool
is_segment segment_id row = row.id == segment_id

abbrev pub is_reservation : ℕ → Reservation → Bool
is_reservation reservation_id row = row.id == reservation_id

abbrev pub is_credit : ℕ → TravelCredit → Bool
is_credit credit_id row = row.id == credit_id

-- The relationships of a row that a query loads with it.
unfoldable pub flight_of : Database → ℕ → Option Flight
flight_of db flight_id = find (λ row. row.id == flight_id) db.flights

unfoldable pub fare_class_of : Database → ℕ → Option FareClass
fare_class_of db fare_class_id = find (λ row. row.id == fare_class_id) db.fare_classes

abbrev pub is_known : Database → ReservationPassenger → Bool
is_known db row = elim (find (λ p. p.id == row.passenger_id) db.passengers) [
  | none ↦ false
  | some _ ↦ true
]

-- `len(reservation.passengers)`, through the association table
unfoldable pub passenger_count : Database → ℕ → ℤ
passenger_count db reservation_id = pos (
    length (
      select (λ row. row.reservation_id == reservation_id && is_known db row)
        db.reservation_passengers))

unfoldable pub find_target : Selection → Bool → Tx FlightFare
find_target sel lock = do
  found ← gets (λ db. find (is_fare sel.new_flight_id sel.new_fare_class_id) db.flight_fares)
  target ← or_raise found (flight_not_found "target flight or fare not found")
  hold lock (fare_row (target.flight_id, target.fare_class_id))
  pure target

-- The schema's fields, from the two rows and those that their relationships lead to.
unfoldable pub snapshot_fields :
    Database
    → ReservationSegment
    → FlightFare
    → Option Reservation
    → Option Flight
    → Option FareClass
    → Option Flight
    → Option FareClass
    → Result Snapshot
snapshot_fields db segment target (some reservation) (some flight) (some fare_class)
      (some target_flight) (some target_class) =
    ok (record {
      segment_id = segment.id;
      reservation_id = segment.reservation_id;
      customer_id = reservation.customer_id;
      old_flight_id = segment.flight_id;
      old_fare_class_id = segment.fare_class_id;
      segment_status = segment.status;
      reservation_status = reservation.status;
      old_flight_status = flight.status;
      origin_airport = flight.origin_airport;
      destination_airport = flight.destination_airport;
      old_departure_at = flight.departure_at;
      old_price = segment.price_paid;
      old_currency = segment.currency;
      old_change_allowed = fare_class.change_allowed;
      target_flight_id = target.flight_id;
      target_fare_class_id = target.fare_class_id;
      target_status = target_flight.status;
      target_origin = target_flight.origin_airport;
      target_destination = target_flight.destination_airport;
      target_departure_at = target_flight.departure_at;
      target_price = target.price;
      target_currency = target.currency;
      available_seats = target.available_seats;
      target_change_allowed = target_class.change_allowed;
      target_change_fee = target_class.change_fee;
      passenger_count = passenger_count db segment.reservation_id;
    })
snapshot_fields _ _ _ _ _ _ _ _ = err attribute_error

unfoldable pub fill_snapshot : Database → ReservationSegment → FlightFare → Result Snapshot
unfolding snapshot_fields
fill_snapshot db segment target =
    snapshot_fields db segment target (find (is_reservation segment.reservation_id) db.reservations)
      (flight_of db segment.flight_id) (fare_class_of db segment.fare_class_id)
      (flight_of db target.flight_id) (fare_class_of db target.fare_class_id)

-- `session.get(TravelCredit, ..., with_for_update=lock)`
unfoldable pub find_credit : ℕ → Bool → Tx TravelCredit
find_credit credit_id lock = do
  found ← gets (λ db. find (is_credit credit_id) db.travel_credits)
  credit ← or_raise found (travel_credit_not_found "travel credit not found")
  hold lock (credit_row credit.id)
  pure credit

unfoldable pub selected_credit : Option ℕ → Bool → Tx (Option TravelCredit)
unfolding find_credit
selected_credit none lock = pure none
selected_credit (some credit_id) lock = do credit ← find_credit credit_id lock; pure (some credit)

-- `_snapshot`
unfoldable pub snapshot : Selection → Bool → Tx (Snapshot × Option TravelCredit)
unfolding find_target selected_credit
snapshot sel lock = do
  found ← gets (λ db. find (is_segment sel.segment_id) db.reservation_segments)
  segment ← or_raise found (segment_not_found "reservation segment not found")
  hold lock (segment_row segment.id)
  target ← find_target sel false
  filled ← gets (λ db. fill_snapshot db segment target)
  snap ← lift filled
  credit ← selected_credit sel.travel_credit_id lock
  pure (snap, credit)

-- `get_snapshot`
unfoldable pub get_snapshot : Selection → Database → Result (Snapshot × Option TravelCredit)
unfolding snapshot
get_snapshot sel db = (atomically (snapshot sel false) db).0
