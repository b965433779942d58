-- ===== src/Airline/Rebooking/Reading.antt =====
-- What a snapshot says of the rows that it was read from.
use agents_at_scale.Prelude.{
  ℕ, ◌≡◌, refl, sym, false, Option, none, some, arith, find, Option-cases, inl, inr,
}
use agents_at_scale.Airline.Errors.{ok}
use agents_at_scale.Airline.Models.{
  Reservation, Flight, FareClass, FlightFare, ReservationSegment, TravelCredit,
}
use agents_at_scale.Airline.Schemas.{Selection, Snapshot}
use agents_at_scale.Airline.Database.{Database, atomically, ◌>>=◌, pure}
use agents_at_scale.Airline.Snapshot.{
  is_fare, is_segment, is_reservation, is_credit, flight_of, fare_class_of, passenger_count,
  snapshot_fields, fill_snapshot, selected_credit, get_snapshot,
}

-- The rows that a snapshot joins.
pub record Rows (sel : Selection) (db : Database) : Type 0 where
  pub segment : ReservationSegment
  pub target : FlightFare
  pub reservation : Reservation
  pub flight : Flight
  pub fare_class : FareClass
  pub target_flight : Flight
  pub target_class : FareClass
  pub segment_found : find (is_segment sel.segment_id) db.reservation_segments ≡ some segment
  pub target_found :
      find (is_fare sel.new_flight_id sel.new_fare_class_id) db.flight_fares ≡ some target
  pub reservation_found :
      find (is_reservation segment.reservation_id) db.reservations ≡ some reservation
  pub flight_found : flight_of db segment.flight_id ≡ some flight
  pub fare_class_found : fare_class_of db segment.fare_class_id ≡ some fare_class
  pub target_flight_found : flight_of db target.flight_id ≡ some target_flight
  pub target_class_found : fare_class_of db target.fare_class_id ≡ some target_class

module _ {sel : Selection} {db : Database} where
  abbrev pub fields_of : Rows sel db → Snapshot
  fields_of rows = record {
    segment_id = rows.segment.id;
    reservation_id = rows.segment.reservation_id;
    customer_id = rows.reservation.customer_id;
    old_flight_id = rows.segment.flight_id;
    old_fare_class_id = rows.segment.fare_class_id;
    segment_status = rows.segment.status;
    reservation_status = rows.reservation.status;
    old_flight_status = rows.flight.status;
    origin_airport = rows.flight.origin_airport;
    destination_airport = rows.flight.destination_airport;
    old_departure_at = rows.flight.departure_at;
    old_price = rows.segment.price_paid;
    old_currency = rows.segment.currency;
    old_change_allowed = rows.fare_class.change_allowed;
    target_flight_id = rows.target.flight_id;
    target_fare_class_id = rows.target.fare_class_id;
    target_status = rows.target_flight.status;
    target_origin = rows.target_flight.origin_airport;
    target_destination = rows.target_flight.destination_airport;
    target_departure_at = rows.target_flight.departure_at;
    target_price = rows.target.price;
    target_currency = rows.target.currency;
    available_seats = rows.target.available_seats;
    target_change_allowed = rows.target_class.change_allowed;
    target_change_fee = rows.target_class.change_fee;
    passenger_count = passenger_count db rows.segment.reservation_id;
  }

-- A selected credit was found.
abbrev pub CreditSeen : Option ℕ → Database → Option TravelCredit → Type 0
CreditSeen none db credit = credit ≡ none
CreditSeen (some credit_id) db none = ⊥
CreditSeen (some credit_id) db (some c) = find (is_credit credit_id) db.travel_credits ≡ some c

fill_snapshot_inv :
    (sel : Selection) (db : Database) {segment : ReservationSegment} {target : FlightFare}
    {snap : Snapshot}
    → find (is_segment sel.segment_id) db.reservation_segments ≡ some segment
    → find (is_fare sel.new_flight_id sel.new_fare_class_id) db.flight_fares ≡ some target
    → fill_snapshot db segment target ≡ ok snap
    → (rows : Rows sel db) × (snap ≡ fields_of rows)
unfolding fill_snapshot
fill_snapshot_inv sel db {segment} {target} {snap} s t h =
    go (find (is_reservation segment.reservation_id) db.reservations) refl
      (flight_of db segment.flight_id) refl (fare_class_of db segment.fare_class_id) refl
      (flight_of db target.flight_id) refl (fare_class_of db target.fare_class_id) refl h
  where
    go :
        (r : Option Reservation)
        → find (is_reservation segment.reservation_id) db.reservations ≡ r
        → (f : Option Flight) → flight_of db segment.flight_id ≡ f
        → (c : Option FareClass) → fare_class_of db segment.fare_class_id ≡ c
        → (g : Option Flight) → flight_of db target.flight_id ≡ g
        → (d : Option FareClass) → fare_class_of db target.fare_class_id ≡ d
        → snapshot_fields db segment target r f c g d ≡ ok snap
        → (rows : Rows sel db) × (snap ≡ fields_of rows)
    go (some r) er (some f) ef (some c) ec (some g) eg (some d) ed k =
        let rows : Rows sel db = record {
          segment = segment;
          target = target;
          reservation = r;
          flight = f;
          fare_class = c;
          target_flight = g;
          target_class = d;
          segment_found = s;
          target_found = t;
          reservation_found = er;
          flight_found = ef;
          fare_class_found = ec;
          target_flight_found = eg;
          target_class_found = ed;
        } in
        (rows, sym (cc k))
    go _ er _ ef _ ec _ eg _ ed k = absurd (cc k)

fill_snapshot_rows :
    {sel : Selection} {db : Database} (rows : Rows sel db)
    → fill_snapshot db rows.segment rows.target ≡ ok (fields_of rows)
unfolding fill_snapshot
fill_snapshot_rows rows = rw (
  rows.reservation_found, rows.flight_found, rows.fare_class_found, rows.target_flight_found,
  rows.target_class_found,
)

credit_seen :
    (credit_id : Option ℕ) (snap : Snapshot) (db : Database) {credit : Option TravelCredit}
    → (atomically {A = Snapshot × Option TravelCredit}
        (selected_credit credit_id false >>= λ c. pure (snap, c))
        db).0
      ≡ ok (snap, credit)
    → CreditSeen credit_id db credit
unfolding selected_credit
credit_seen none snap db h = ground arith
credit_seen (some credit_id) snap db h = ground arith

-- A snapshot that was read shows the rows that it joins, and the selected credit.
pub get_snapshot_inv :
    (sel : Selection) (db : Database) {snap : Snapshot} {credit : Option TravelCredit}
    → get_snapshot sel db ≡ ok (snap, credit)
    → (rows : Rows sel db) × (snap ≡ fields_of rows) × CreditSeen sel.travel_credit_id db credit
unfolding get_snapshot
get_snapshot_inv sel db {snap} {credit} h =
    elim (Option-cases (find (is_segment sel.segment_id) db.reservation_segments)) [
      | inl e ↦ absurd (ground arith)
      | inr (segment, e) ↦
          elim (Option-cases
            (find (is_fare sel.new_flight_id sel.new_fare_class_id) db.flight_fares)) [
              | inl e' ↦ absurd (ground arith)
              | inr (target, e') ↦
                  let (rows, same) = fill_snapshot_inv sel db {snap = snap} e e' (ground arith) in
                  (rows, same, credit_seen sel.travel_credit_id snap db (ground arith))
            ]
    ]

-- The rows and the credit are enough to read a snapshot.
pub get_snapshot_rows :
    {sel : Selection} {db : Database} (rows : Rows sel db) (credit : Option TravelCredit)
    → CreditSeen sel.travel_credit_id db credit
    → get_snapshot sel db ≡ ok (fields_of rows, credit)
unfolding get_snapshot
get_snapshot_rows {sel} {db} rows credit c =
    ground (arith, rows.segment_found, rows.target_found, fill_snapshot_rows rows)
