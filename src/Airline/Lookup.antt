-- ===== src/Airline/Lookup.antt =====
-- The read-only repositories of the ORM (langgraph-python/app/airline/repository: customer.py, flight.py,
-- flight_change.py, reservation.py, travel_credit.py) and the half of the class Service that reads through them
-- (langgraph-python/app/airline/service.py). Rows that an ORDER BY leaves level stay in the order of the table.
pub mod Search
pub mod Found
pub mod Credits
pub mod Tests
use agents_at_scale.Prelude.{
  ℕ, String, Bool, true, false, not, ◌&&◌, ◌||◌, ◌++◌, Option, none, some, List, [], ◌∷◌, leb, ltb,
  find, select, map, if◌then◌else◌,
}
use agents_at_scale.Prelude.Eq.{◌==◌, ◌!=◌, nat_eq, string_eq}
use agents_at_scale.Prelude.Int.{ℤ, pos, ◌-ℤ◌, ltb_ℤ, leb_ℤ}
use agents_at_scale.Airline.Errors.{
  Error, Result, ok, err, ◌>>=◌, ◌>>◌, raise_if, or_raise, customer_not_found, flight_not_found,
  segment_not_found, value_error,
}
use agents_at_scale.Airline.Models.{
  Customer, Flight, FareClass, FlightFare, ReservationSegment, FlightStatus, flight_status_eq,
  TravelCredit, TravelCreditStatus, travel_credit_status_eq, FlightChange,
}
use agents_at_scale.Airline.Schemas.{
  SearchInput, SearchParams, AvailableFare, AvailableFlight, RebookingOption,
}
use agents_at_scale.Airline.Database.{Database}
use agents_at_scale.Airline.Snapshot.{is_segment, flight_of, fare_class_of}

-- ORDER BY
module _ {ℓ} {A : Type ℓ} (before : A → A → Bool) where
  unfoldable pub insert : A → List A → List A
  insert x [] = x ∷ []
  insert x (y ∷ ys) = let rest = insert x ys in if before y x then y ∷ rest else x ∷ y ∷ ys

  unfoldable pub order_by : List A → List A
  unfolding insert
  order_by [] = []
  order_by (x ∷ xs) = insert x (order_by xs)

-- `CustomerRepository.get_by_id`
unfoldable pub get_customer : ℕ → Database → Result Customer
get_customer id db =
    or_raise (find (λ row. row.id == id) db.customers) (customer_not_found "customer not found")

-- `FlightRepository.get_by_id`
unfoldable pub get_flight : ℕ → Database → Result Flight
get_flight id db = or_raise (flight_of db id) (flight_not_found "flight not found")

-- `ReservationRepository.get_segment_by_id`
pub get_segment : ℕ → Database → Result ReservationSegment
get_segment id db =
    or_raise (find (is_segment id) db.reservation_segments)
      (segment_not_found "reservation segment not found")

-- `FlightChangeRepository.get_by_segment`
unfoldable pub get_change_history : ℕ → Database → List FlightChange
get_change_history id db =
    order_by (λ x y. leb x.created_at y.created_at)
      (select (λ row. row.reservation_segment_id == id) db.flight_changes)

unfoldable pub is_available : ℕ → String → ℕ → TravelCredit → Bool
is_available customer_id currency now row =
    row.customer_id == customer_id
    && row.currency == currency
    && ltb_ℤ (pos 0) row.remaining_amount
    && ltb now row.expires_at
    && (row.status == TravelCreditStatus.available
        || row.status == TravelCreditStatus.partially_used)

abbrev pub expires_before : TravelCredit → TravelCredit → Bool
expires_before x y =
    ltb x.expires_at y.expires_at || x.expires_at == y.expires_at && leb x.created_at y.created_at

-- `get_available_travel_credits`, with the query of `TravelCreditRepository.get_available_by_customer`
unfoldable pub get_available_travel_credits : ℕ → String → ℕ → Database → Result (List TravelCredit)
get_available_travel_credits customer_id currency now db = do
  raise_if (currency == "") (value_error "currency is required")
  ok (order_by expires_before (select (is_available customer_id currency now) db.travel_credits))

-- A row of the join that `search_available` selects
pub record Row : Type 0 where
  pub flight_fare : FlightFare
  pub flight : Flight
  pub fare_class : FareClass

unfoldable pub joined_row : FlightFare → Option Flight → Option FareClass → List Row
joined_row fare (some flight) (some fare_class) =
    record { flight_fare = fare; flight = flight; fare_class = fare_class } ∷ []
joined_row fare _ _ = []

unfoldable pub joined : Database → List FlightFare → List Row
unfolding joined_row
joined db [] = []
joined db (fare ∷ fares) =
    joined_row fare (flight_of db fare.flight_id) (fare_class_of db fare.fare_class_id)
    ++ joined db fares

unfoldable pub is_found : SearchParams → Row → Bool
is_found params row =
    row.flight.origin_airport == params.origin
    && row.flight.destination_airport == params.destination
    && leb params.departure_from row.flight.departure_at
    && leb row.flight.departure_at params.departure_to
    && row.flight.status == FlightStatus.scheduled
    && leb_ℤ params.passenger_count row.flight_fare.available_seats

abbrev pub departs_before : Row → Row → Bool
departs_before x y =
    ltb x.flight.departure_at y.flight.departure_at
    || x.flight.departure_at == y.flight.departure_at
      && leb_ℤ x.flight_fare.price y.flight_fare.price

abbrev pub fare_of : Row → AvailableFare
fare_of row = record { fare_class = row.fare_class; flight_fare = row.flight_fare }

-- `results.setdefault(flight.id, ...)` and the fare appended to it
unfoldable pub add_fare : Row → List AvailableFlight → List AvailableFlight
add_fare row [] = record { flight = row.flight; fares = fare_of row ∷ [] } ∷ []
add_fare row (result ∷ results) =
    let rest = add_fare row results in
    if result.flight.id == row.flight.id
    then record result { fares = result.fares ++ fare_of row ∷ [] } ∷ results
    else result ∷ rest

unfoldable pub grouped : List AvailableFlight → List Row → List AvailableFlight
unfolding add_fare
grouped results [] = results
grouped results (row ∷ rows) = grouped (add_fare row results) rows

-- `search_available`
unfoldable pub search_available : SearchParams → Database → List AvailableFlight
unfolding grouped joined
search_available params db =
    grouped [] (order_by departs_before (select (is_found params) (joined db db.flight_fares)))

module _ (input : SearchInput) (segment : ReservationSegment) (original : Flight) where
  pub is_candidate : AvailableFlight → Bool
  is_candidate candidate = not (
      candidate.flight.status != FlightStatus.scheduled
      || candidate.flight.origin_airport != original.origin_airport
      || candidate.flight.destination_airport != original.destination_airport
      || ltb candidate.flight.departure_at input.departure_from
      || ltb input.departure_to candidate.flight.departure_at)

  pub is_choice : AvailableFare → Bool
  is_choice fare = not (
      not fare.fare_class.change_allowed
      || ltb_ℤ fare.flight_fare.available_seats input.passenger_count)

  abbrev pub option_of : Flight → AvailableFare → RebookingOption
  option_of flight fare = record {
    flight = flight;
    fare_class = fare.fare_class;
    flight_fare = fare.flight_fare;
    fare_difference = fare.flight_fare.price -ℤ segment.price_paid;
    change_fee = fare.fare_class.change_fee;
  }

  pub options_of : Flight → List AvailableFare → List RebookingOption
  unfolding is_choice
  options_of flight [] = []
  options_of flight (fare ∷ fares) =
      let rest = options_of flight fares in
      if is_choice fare then option_of flight fare ∷ rest else rest

  pub options : List AvailableFlight → List RebookingOption
  unfolding is_candidate options_of
  options [] = []
  options (candidate ∷ candidates) =
      let rest = options candidates in
      if is_candidate candidate then options_of candidate.flight candidate.fares ++ rest else rest

abbrev pub forbids_change : Option FareClass → Bool
forbids_change none = false
forbids_change (some fare_class) = not fare_class.change_allowed

abbrev pub params_of : SearchInput → Flight → SearchParams
params_of input original = record {
  origin = original.origin_airport;
  destination = original.destination_airport;
  departure_from = input.departure_from;
  departure_to = input.departure_to;
  passenger_count = input.passenger_count;
}

-- `search_rebooking_options`
pub search_rebooking_options : SearchInput → Database → Result (List RebookingOption)
unfolding get_segment get_flight search_available options
search_rebooking_options input db = do
  raise_if (ltb input.departure_to input.departure_from) (value_error "departure window is invalid")
  raise_if (leb_ℤ input.passenger_count (pos 0))
      (value_error "passenger count must be greater than zero")
  segment ← get_segment input.segment_id db
  original ← get_flight segment.flight_id db
  ok (
      if forbids_change (fare_class_of db segment.fare_class_id)
      then []
      else options input segment original (search_available (params_of input original) db))
