-- ===== src/Airline/Sql/Lookup.antt =====
-- The read-only repositories over plain statements (langgraph-python/app/airline/repository/sql:
-- customer.py, flight.py, flight_change.py, reservation.py, travel_credit.py, rows.py and their
-- statements in queries.py). Rows of one table that an ORDER BY leaves level stay in the order of the table.
use agents_at_scale.Prelude.{
  ℕ, String, Bool, ◌&&◌, ◌||◌, ◌++◌, List, [], ◌∷◌, leb, ltb, find, select, if◌then◌else◌,
}
use agents_at_scale.Prelude.Eq.{◌==◌, nat_eq, string_eq}
use agents_at_scale.Prelude.Int.{ℤ, pos, leb_ℤ, ltb_ℤ}
use agents_at_scale.Airline.Errors.{Result, or_raise, customer_not_found, flight_not_found}
use agents_at_scale.Airline.Models.{
  Customer, Flight, FareClass, FlightFare, FlightStatus, flight_status_eq, FlightChange,
  TravelCredit, TravelCreditStatus, travel_credit_status_eq,
}
use agents_at_scale.Airline.Schemas.{SearchParams, AvailableFlight}
use agents_at_scale.Airline.Database.{Database}
use agents_at_scale.Airline.Lookup.{order_by}

-- A row of SEARCH_AVAILABLE_FLIGHTS, by its aliases.
pub record SearchRow : Type 0 where
  pub flight_id : ℕ
  pub flight_number : String
  pub origin_airport : String
  pub destination_airport : String
  pub departure_at : ℕ
  pub arrival_at : ℕ
  pub flight_status : FlightStatus
  pub capacity : ℤ
  pub flight_created_at : ℕ
  pub flight_updated_at : ℕ
  pub flight_fare_id : ℕ
  pub flight_fare_flight_id : ℕ
  pub flight_fare_class_id : ℕ
  pub price : ℤ
  pub fare_currency : String
  pub available_seats : ℤ
  pub fare_class_id : ℕ
  pub code : String
  pub name : String
  pub change_allowed : Bool
  pub cancellation_allowed : Bool
  pub change_fee : ℤ
  pub cancellation_fee : ℤ
  pub fare_class_created_at : ℕ

abbrev pub search_row : Flight → FlightFare → FareClass → SearchRow
search_row f ff fc = record {
  flight_id = f.id;
  flight_number = f.flight_number;
  origin_airport = f.origin_airport;
  destination_airport = f.destination_airport;
  departure_at = f.departure_at;
  arrival_at = f.arrival_at;
  flight_status = f.status;
  capacity = f.capacity;
  flight_created_at = f.created_at;
  flight_updated_at = f.updated_at;
  flight_fare_id = ff.id;
  flight_fare_flight_id = ff.flight_id;
  flight_fare_class_id = ff.fare_class_id;
  price = ff.price;
  fare_currency = ff.currency;
  available_seats = ff.available_seats;
  fare_class_id = fc.id;
  code = fc.code;
  name = fc.name;
  change_allowed = fc.change_allowed;
  cancellation_allowed = fc.cancellation_allowed;
  change_fee = fc.change_fee;
  cancellation_fee = fc.cancellation_fee;
  fare_class_created_at = fc.created_at;
}

-- `rows.flight`, `rows.fare_class` and `rows.flight_fare`
abbrev pub row_flight : SearchRow → Flight
row_flight row = record {
  id = row.flight_id;
  flight_number = row.flight_number;
  origin_airport = row.origin_airport;
  destination_airport = row.destination_airport;
  departure_at = row.departure_at;
  arrival_at = row.arrival_at;
  status = row.flight_status;
  capacity = row.capacity;
  created_at = row.flight_created_at;
  updated_at = row.flight_updated_at;
}

abbrev pub row_fare_class : SearchRow → ℕ → FareClass
row_fare_class row fare_class_id = record {
  id = fare_class_id;
  code = row.code;
  name = row.name;
  change_allowed = row.change_allowed;
  cancellation_allowed = row.cancellation_allowed;
  change_fee = row.change_fee;
  cancellation_fee = row.cancellation_fee;
  created_at = row.fare_class_created_at;
}

abbrev pub row_flight_fare : SearchRow → FlightFare
row_flight_fare row = record {
  id = row.flight_fare_id;
  flight_id = row.flight_fare_flight_id;
  fare_class_id = row.flight_fare_class_id;
  price = row.price;
  currency = row.fare_currency;
  available_seats = row.available_seats;
}

-- FROM flights, JOIN flight_fares, JOIN fare_classes
unfoldable pub join_classes : Flight → FlightFare → List FareClass → List SearchRow
join_classes f ff [] = []
join_classes f ff (fc ∷ classes) =
    let rest = join_classes f ff classes in
    if fc.id == ff.fare_class_id then search_row f ff fc ∷ rest else rest

unfoldable pub join_fares : List FareClass → Flight → List FlightFare → List SearchRow
unfolding join_classes
join_fares classes f [] = []
join_fares classes f (ff ∷ fares) =
    let rest = join_fares classes f fares in
    if ff.flight_id == f.id then join_classes f ff classes ++ rest else rest

unfoldable pub join_flights : List FareClass → List FlightFare → List Flight → List SearchRow
unfolding join_fares
join_flights classes fares [] = []
join_flights classes fares (f ∷ flights) =
    join_fares classes f fares ++ join_flights classes fares flights

unfoldable pub is_offered : SearchParams → SearchRow → Bool
is_offered params row =
    row.origin_airport == params.origin
    && row.destination_airport == params.destination
    && leb params.departure_from row.departure_at
    && leb row.departure_at params.departure_to
    && row.flight_status == FlightStatus.scheduled
    && leb_ℤ params.passenger_count row.available_seats

abbrev pub leaves_before : SearchRow → SearchRow → Bool
leaves_before x y =
    ltb x.departure_at y.departure_at || x.departure_at == y.departure_at && leb_ℤ x.price y.price

-- SEARCH_AVAILABLE_FLIGHTS. The server brings the rows in an order of its own, `scan`, which stays between rows
-- that ORDER BY leaves level.
unfoldable pub search_available_flights :
    (List SearchRow → List SearchRow) → SearchParams → Database → List SearchRow
unfolding join_flights
search_available_flights scan params db =
    order_by leaves_before
      (scan (select (is_offered params) (join_flights db.fare_classes db.flight_fares db.flights)))

-- `results.setdefault(row["flight_id"], ...)` and the fare appended to it
unfoldable pub put_fare : SearchRow → List AvailableFlight → List AvailableFlight
put_fare row [] =
    record {
      flight = row_flight row;
      fares =
          record {
            fare_class = row_fare_class row row.fare_class_id;
            flight_fare = row_flight_fare row;
          }
          ∷ [];
    }
    ∷ []
put_fare row (result ∷ results) =
    let rest = put_fare row results in
    if result.flight.id == row.flight_id
    then record result {
      fares =
          result.fares
          ++ record {
            fare_class = row_fare_class row row.fare_class_id;
            flight_fare = row_flight_fare row;
          }
            ∷ [];
    }
      ∷ results
    else result ∷ rest

unfoldable pub collect : List AvailableFlight → List SearchRow → List AvailableFlight
unfolding put_fare
collect results [] = results
collect results (row ∷ rows) = collect (put_fare row results) rows

-- `FlightRepository.search_available`
unfoldable pub find_available :
    (List SearchRow → List SearchRow) → SearchParams → Database → List AvailableFlight
unfolding search_available_flights collect
find_available scan params db = collect [] (search_available_flights scan params db)

-- GET_CUSTOMER, and `CustomerRepository.get_by_id`
unfoldable pub get_customer_by_id : ℕ → Database → Result Customer
get_customer_by_id customer_id db =
    or_raise (find (λ row. row.id == customer_id) db.customers)
      (customer_not_found "customer not found")

-- GET_FLIGHT_BY_ID, and `FlightRepository.get_by_id`
unfoldable pub get_flight_by_id : ℕ → Database → Result Flight
get_flight_by_id flight_id db =
    or_raise (find (λ row. row.id == flight_id) db.flights) (flight_not_found "flight not found")

-- GET_FLIGHT_CHANGES_BY_SEGMENT
unfoldable pub get_flight_changes_by_segment : ℕ → Database → List FlightChange
get_flight_changes_by_segment segment_id db =
    order_by (λ x y. leb x.created_at y.created_at)
      (select (λ row. row.reservation_segment_id == segment_id) db.flight_changes)

-- The condition of GET_AVAILABLE_TRAVEL_CREDITS
unfoldable pub is_spendable : ℕ → String → ℕ → TravelCredit → Bool
is_spendable customer_id currency now row =
    row.customer_id == customer_id
    && row.currency == currency
    && ltb_ℤ (pos 0) row.remaining_amount
    && ltb now row.expires_at
    && (row.status == TravelCreditStatus.available
        || row.status == TravelCreditStatus.partially_used)

-- GET_AVAILABLE_TRAVEL_CREDITS
unfoldable pub get_available_by_customer : ℕ → String → ℕ → Database → List TravelCredit
get_available_by_customer customer_id currency now db =
    order_by
      (λ x y.
        ltb x.expires_at y.expires_at
        || x.expires_at == y.expires_at && leb x.created_at y.created_at)
      (select (is_spendable customer_id currency now) db.travel_credits)
