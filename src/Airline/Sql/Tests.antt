-- ===== src/Airline/Sql/Tests.antt =====
-- The lookups over rows of langgraph-python/db/mock_data.sql.
use agents_at_scale.Prelude.{◌≡◌, ◌⊎◌, refl}
use agents_at_scale.Prelude.Eq.{nat_eq, string_eq}
use agents_at_scale.Prelude.Int.{pos}
use agents_at_scale.Airline.Errors.{ok, err, value_error, reservation_not_found}
use agents_at_scale.Airline.Schemas.{SearchParams, ReservationDetails}
use agents_at_scale.Airline.Lookup.{
  search_available, joined, joined_row, is_found, grouped, add_fare, order_by, insert,
}
use agents_at_scale.Airline.Snapshot.{flight_of, fare_class_of}
use agents_at_scale.Airline.Rebooking.Tests.{mock_data, flight, economy, alice}
use agents_at_scale.Airline.Details.{customer_of, get_details, get_reservation}
use agents_at_scale.Airline.Sql.Lookup.{
  search_available_flights, join_flights, join_fares, join_classes, is_offered, collect, put_fare,
  find_available,
}
use agents_at_scale.Airline.Sql.Details.{get_details_by_booking_reference}
use agents_at_scale.Airline.Sql.Reservations.{IsReferential, SameReservation, get_details-agree}

abbrev params : SearchParams
params = record {
  origin = "JFK";
  destination = "LAX";
  departure_from = 210;
  departure_to = 230;
  passenger_count = pos 1;
}

-- The rows of a run that agree with what the ORM finds there
same_flights : find_available (λ rows. rows) params mock_data ≡ search_available params mock_data
unfolding find_available search_available_flights join_flights join_fares join_classes is_offered
    collect put_fare search_available joined joined_row is_found grouped add_fare order_by insert
    flight_of fare_class_of
same_flights = refl

mock_data-IsReferential : IsReferential mock_data
unfolding flight_of fare_class_of customer_of
mock_data-IsReferential = record {
  linked = ((flight 1 "AS100" 200, economy, refl, refl), tt);
  owned = ((alice, refl), tt);
  keyed = (refl, tt);
}

get_details-agree_example :
    ((get_details "ABC123" mock_data ≡ err (reservation_not_found "reservation not found"))
      × (get_details_by_booking_reference "ABC123" mock_data
          ≡ err (reservation_not_found "reservation not found")))
    ⊎ ((d d' : ReservationDetails) × (get_details "ABC123" mock_data ≡ ok d)
        × (get_details_by_booking_reference "ABC123" mock_data ≡ ok d')
        × SameReservation d d')
get_details-agree_example = get_details-agree "ABC123" mock_data mock_data-IsReferential

-- Without a reference the repository is not asked.
no_reference :
    get_reservation get_details "" mock_data ≡ err (value_error "booking reference is required")
unfolding get_reservation
no_reference = refl

unknown_reference :
    get_reservation get_details_by_booking_reference "ZZZ999" mock_data
    ≡ get_details_by_booking_reference "ZZZ999" mock_data
unfolding get_reservation
unknown_reference = refl
