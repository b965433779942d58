-- ===== src/Airline/Lookup/Search.antt =====
-- What a search offers.
use agents_at_scale.Prelude.{
  ◌≡◌, ◌≤◌, ◌⊎◌, refl, subst, true, false, none, some, Bool-cases, inl, inr, Option, List, [], ◌∷◌,
  All, arith, ltb, if◌then◌else◌,
}
use agents_at_scale.Prelude.Eq.{nat_eq, string_eq}
use agents_at_scale.Prelude.Int.{pos, ◌-ℤ◌, ◌≤ℤ◌, ◌<ℤ◌, leb_ℤ}
use text.Mathlib.TextEquality.{eq_iff}
use agents_at_scale.Airline.Errors.{Result, ok, raise_if, >>=-eq-ok, value_error}
use agents_at_scale.Airline.Models.{
  Flight, FareClass, FlightStatus, flight_status_eq, ReservationSegment,
}
use agents_at_scale.Airline.Schemas.{SearchInput, AvailableFare, AvailableFlight, RebookingOption}
use agents_at_scale.Airline.Database.{Database}
use agents_at_scale.Airline.Snapshot.{fare_class_of}
use agents_at_scale.Airline.Lookup.Found.{All-++, IsOnFile, IsFound, search_available-All}
use agents_at_scale.Airline.Lookup.{
  get_segment, get_flight, is_candidate, is_choice, option_of, options_of, options, forbids_change,
  params_of, search_available, search_rebooking_options,
}

-- A change that may be offered: as scheduled, on the same route, within the window, in a fare that may be changed and
-- has room, priced by what was paid, and with its flight, its fare and its class on file.
pub record IsOption (db : Database) (input : SearchInput) (segment : ReservationSegment)
    (original : Flight) (option : RebookingOption) : Type 0 where
  pub on_file :
      IsOnFile db option.flight
        (record { fare_class = option.fare_class; flight_fare = option.flight_fare })
  pub scheduled : option.flight.status ≡ FlightStatus.scheduled
  pub same_origin : option.flight.origin_airport ≡ original.origin_airport
  pub same_destination : option.flight.destination_airport ≡ original.destination_airport
  pub not_early : input.departure_from ≤ option.flight.departure_at
  pub not_late : option.flight.departure_at ≤ input.departure_to
  pub changeable : option.fare_class.change_allowed ≡ true
  pub room : input.passenger_count ≤ℤ option.flight_fare.available_seats
  pub difference : option.fare_difference ≡ option.flight_fare.price -ℤ segment.price_paid
  pub fee : option.change_fee ≡ option.fare_class.change_fee

module _ (db : Database) (input : SearchInput) (segment : ReservationSegment)
    (original : Flight) where
  option_of-IsOption :
      (candidate : AvailableFlight) (fare : AvailableFare)
      → is_candidate input segment original candidate ≡ true
      → is_choice input segment original fare ≡ true
      → IsOnFile db candidate.flight fare
      → IsOption db input segment original (option_of input segment original candidate.flight fare)
  unfolding is_candidate is_choice
  option_of-IsOption candidate fare c k filed = ground (
    arith,
    filed,
    c,
    k,
    eq_iff candidate.flight.origin_airport original.origin_airport,
    eq_iff candidate.flight.destination_airport original.destination_airport,
  )

  options_of-All :
      (candidate : AvailableFlight) (fares : List AvailableFare)
      → is_candidate input segment original candidate ≡ true
      → All (IsOnFile db candidate.flight) fares
      → All
          (IsOption db input segment original)
          (options_of input segment original candidate.flight fares)
  unfolding options_of
  options_of-All candidate [] c filed = tt
  options_of-All candidate (fare ∷ fares) c filed =
      elim (Bool-cases (is_choice input segment original fare)) [
        | inl k ↦ rw k (
          option_of-IsOption candidate fare c k filed.0,
          options_of-All candidate fares c filed.1,
        )
        | inr k ↦ rw k (options_of-All candidate fares c filed.1)
      ]

  options-All :
      (candidates : List AvailableFlight)
      → All (IsFound db) candidates
      → All (IsOption db input segment original) (options input segment original candidates)
  unfolding options IsFound
  options-All [] found = tt
  options-All (candidate ∷ candidates) found =
      elim (Bool-cases (is_candidate input segment original candidate)) [
        | inl c ↦ rw c (
            All-++ (IsOption db input segment original)
              (options_of input segment original candidate.flight candidate.fares)
              (options input segment original candidates)
              (options_of-All candidate candidate.fares c found.0) (options-All candidates found.1))
        | inr c ↦ rw c (options-All candidates found.1)
      ]

  -- The fare class that was booked may forbid a change: then nothing is offered.
  pub Offers : Option FareClass → List RebookingOption → Type 0
  Offers booked found =
      ((c : FareClass) × (booked ≡ some c) × (c.change_allowed ≡ false) × (found ≡ []))
      ⊎ (((booked ≡ none) ⊎ ((c : FareClass) × (booked ≡ some c) × (c.change_allowed ≡ true)))
          × All (IsOption db input segment original) found)

  options-unless_forbidden :
      (booked : Option FareClass) (candidates : List AvailableFlight)
      → All (IsFound db) candidates
      → Offers booked
          (if forbids_change booked then [] else options input segment original candidates)
  unfolding Offers
  options-unless_forbidden none candidates found = inr (inl refl, options-All candidates found)
  options-unless_forbidden (some c) candidates found = elim (Bool-cases c.change_allowed) [
    | inl allowed ↦ inr (inr (c, refl, allowed), rw allowed (options-All candidates found))
    | inr forbidden ↦ inl (c, refl, forbidden, rw forbidden refl)
  ]

found_Offers :
    {A : Type 0} (P : List A → Type 0) {xs found : List A}
    → ◌≡◌ {A = Result (List A)} (ok xs) (ok found)
    → P xs
    → P found
found_Offers P {xs} {found} e p = let same : xs ≡ found = cc e in subst P same p

-- A search that succeeds was for a known segment, a window that is not empty and at least one passenger. If the class
-- that was booked is known and forbids changes, it offers nothing. Else every option is a fare on file of a
-- scheduled flight of the same route in the window, which may be changed and has room, with its prices.
pub search_rebooking_options-All :
    (input : SearchInput) (db : Database) {found : List RebookingOption}
    → search_rebooking_options input db ≡ ok found
    → (segment : ReservationSegment) × (original : Flight) × (get_segment input.segment_id db
        ≡ ok segment)
      × (get_flight segment.flight_id db ≡ ok original)
      × (input.departure_from ≤ input.departure_to)
      × (pos 0 <ℤ input.passenger_count)
      × Offers db input segment original (fare_class_of db segment.fare_class_id) found
unfolding search_rebooking_options
search_rebooking_options-All input db {found} h =
    let (_, window, h₁) =
      >>=-eq-ok
        (raise_if (ltb input.departure_to input.departure_from)
          (value_error "departure window is invalid"))
        _ h in
    let (_, someone, h₂) =
      >>=-eq-ok
        (raise_if (leb_ℤ input.passenger_count (pos 0))
          (value_error "passenger count must be greater than zero"))
        _ h₁ in
    let (segment, e, h₃) = >>=-eq-ok (get_segment input.segment_id db) _ h₂ in
    let (original, k, h₄) = >>=-eq-ok (get_flight segment.flight_id db) _ h₃ in
    (
      segment,
      original,
      e,
      k,
      ground (arith, window),
      ground (arith, someone),
      found_Offers (Offers db input segment original (fare_class_of db segment.fare_class_id)) h₄ (
          options-unless_forbidden db input segment original
            (fare_class_of db segment.fare_class_id)
            (search_available (params_of input original) db)
            (search_available-All db (params_of input original))),
    )
