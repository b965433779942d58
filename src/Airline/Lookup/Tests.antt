-- ===== src/Airline/Lookup/Tests.antt =====
-- Alice's search, over the rows of Airline.Rebooking.Tests.
use agents_at_scale.Prelude.{◌≡◌, ◌↔◌, ◌≤◌, refl, [], ◌∷◌}
use agents_at_scale.Prelude.Eq.{nat_eq, string_eq}
use agents_at_scale.Prelude.Int.{pos, ◌-ℤ◌, ◌<ℤ◌}
use agents_at_scale.Airline.Errors.{ok}
use agents_at_scale.Airline.Models.{
  Flight, flight_status_eq, ReservationSegment, travel_credit_status_eq,
}
use agents_at_scale.Airline.Schemas.{SearchInput, RebookingOption}
use agents_at_scale.Airline.Snapshot.{flight_of, fare_class_of}
use agents_at_scale.Airline.Rebooking.Tests.{mock_data, credit, fare, flight, economy}
use agents_at_scale.Airline.Lookup.{
  insert, order_by, get_flight, get_segment, is_available, get_available_travel_credits, joined_row,
  joined, is_found, add_fare, grouped, search_available, is_candidate, is_choice, options_of,
  options, search_rebooking_options,
}
use agents_at_scale.Airline.Lookup.Search.{Offers, search_rebooking_options-All}
use agents_at_scale.Airline.Lookup.Credits.{In, IsOpen, get_available_travel_credits_iff}

abbrev window : SearchInput
window = record {
  segment_id = 1;
  departure_from = 210;
  departure_to = 300;
  passenger_count = pos 1;
}

abbrev offer : RebookingOption
offer = record {
  flight = flight 2 "AS101" 224;
  fare_class = economy;
  flight_fare = fare 2 33000 100;
  fare_difference = pos 3000;
  change_fee = pos 2500;
}

searched : search_rebooking_options window mock_data ≡ ok (offer ∷ [])
unfolding search_rebooking_options get_segment get_flight search_available grouped add_fare joined
    joined_row is_found order_by insert options options_of is_candidate is_choice flight_of
    fare_class_of ◌-ℤ◌
searched = refl

search_rebooking_options-All_example :
    (segment : ReservationSegment) × (original : Flight) × (get_segment 1 mock_data ≡ ok segment)
    × (get_flight segment.flight_id mock_data ≡ ok original)
    × (210 ≤ 300)
    × (pos 0 <ℤ pos 1)
    × Offers mock_data window segment original
        (fare_class_of mock_data segment.fare_class_id)
        (offer ∷ [])
search_rebooking_options-All_example = search_rebooking_options-All window mock_data searched

credits_listed : get_available_travel_credits 1 "USD" 100 mock_data ≡ ok (credit ∷ [])
unfolding get_available_travel_credits is_available order_by insert
credits_listed = refl

get_available_travel_credits_iff_example :
    In credit (credit ∷ []) ↔ In credit mock_data.travel_credits × IsOpen 1 "USD" 100 credit
get_available_travel_credits_iff_example =
    get_available_travel_credits_iff 1 "USD" 100 mock_data credit credits_listed
