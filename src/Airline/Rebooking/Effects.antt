-- ===== src/Airline/Rebooking/Effects.antt =====
-- What the steps of `execute` did, read off from their success.
use agents_at_scale.Prelude.{
  ℕ, ◌≡◌, Option, none, some, List, [], ◌∷◌, ◌++◌, arith, find, update, find-some, nat_beq_iff,
  Option-cases, inl, inr,
}
use agents_at_scale.Prelude.Int.{ℤ, ◌+ℤ◌, ◌-ℤ◌, ◌≤ℤ◌}
use agents_at_scale.Airline.Errors.{ok}
use agents_at_scale.Airline.Models.{Reservation, FlightFare, ReservationSegment, TravelCredit}
use agents_at_scale.Airline.Schemas.{Selection, Validation, RebookingResult}
use agents_at_scale.Airline.Database.{Database, Session, ◌>>◌, pure, >>=-eq-ok}
use agents_at_scale.Airline.Rebooking.{
  Inputs, set_seats, move_seats, rebooked, charged, rebook_segment, spent, spend, flight_change,
  record_change, apply_change,
}
use agents_at_scale.Airline.Snapshot.{is_fare, is_segment, is_reservation, is_credit}

abbrev pub spent_rows : Option ℕ → ℤ → List TravelCredit → List TravelCredit
spent_rows none amount rows = rows
spent_rows (some credit_id) amount rows = update (is_credit credit_id) (spent amount) rows

module _ (sel : Selection) (v : Validation) where
  -- The fares after a change, given the two that it touched.
  abbrev pub moved : FlightFare → FlightFare → Database → Database
  moved target old_fare db =
      set_seats old_fare (old_fare.available_seats +ℤ v.passenger_count)
        (set_seats target (target.available_seats -ℤ v.passenger_count) db)

  pub record Moved (db db' : Database) : Type 0 where
    pub target : FlightFare
    pub old_fare : FlightFare
    pub target_found :
        find (is_fare sel.new_flight_id sel.new_fare_class_id) db.flight_fares ≡ some target
    pub room : v.passenger_count ≤ℤ target.available_seats
    pub old_found :
        find
          (is_fare v.old_flight_id v.old_fare_class_id)
          (set_seats target (target.available_seats -ℤ v.passenger_count) db).flight_fares
        ≡ some old_fare
    pub after : db' ≡ moved target old_fare db

pub move_seats_inv :
    (sel : Selection) (v : Validation) (s t : Session)
    → move_seats sel v s ≡ ok (tt, t)
    → Moved sel v s.db t.db
unfolding move_seats
move_seats_inv sel v s t h =
    elim (Option-cases (find (is_fare sel.new_flight_id sel.new_fare_class_id) s.db.flight_fares)) [
      | inl e ↦ absurd (ground arith)
      | inr (target, e) ↦
          elim (Option-cases (
            find (is_fare v.old_flight_id v.old_fare_class_id)
              (set_seats target (target.available_seats -ℤ v.passenger_count) s.db).flight_fares)) [
                | inl e' ↦ absurd (ground arith)
                | inr (old_fare, e') ↦ record {
                  target = target;
                  old_fare = old_fare;
                  target_found = e;
                  room = ground arith;
                  old_found = e';
                  after = ground arith;
                }
              ]
    ]

-- A row that is found by its id has that id.
pub find_segment_id :
    (segment_id : ℕ) (rows : List ReservationSegment) {row : ReservationSegment}
    → find (is_segment segment_id) rows ≡ some row
    → row.id ≡ segment_id
find_segment_id segment_id rows {row} h =
    (nat_beq_iff row.id segment_id).0 (find-some (is_segment segment_id) rows h)

find_reservation_id :
    (reservation_id : ℕ) (rows : List Reservation) {row : Reservation}
    → find (is_reservation reservation_id) rows ≡ some row
    → row.id ≡ reservation_id
find_reservation_id reservation_id rows {row} h =
    (nat_beq_iff row.id reservation_id).0 (find-some (is_reservation reservation_id) rows h)

find_credit_id :
    (credit_id : ℕ) (rows : List TravelCredit) {row : TravelCredit}
    → find (is_credit credit_id) rows ≡ some row
    → row.id ≡ credit_id
find_credit_id credit_id rows {row} h =
    (nat_beq_iff row.id credit_id).0 (find-some (is_credit credit_id) rows h)

module _ (inputs : Inputs) (sel : Selection) (v : Validation) where
  pub record Rebooked (db db' : Database) (rows : ReservationSegment × Reservation) : Type 0 where
    pub segment : ReservationSegment
    pub reservation : Reservation
    pub segment_found : find (is_segment sel.segment_id) db.reservation_segments ≡ some segment
    pub reservation_found :
        find (is_reservation v.reservation_id) db.reservations ≡ some reservation
    pub returned : rows ≡ (rebooked inputs v segment, reservation)
    pub after : db' ≡ record db {
      reservation_segments =
          update (is_segment sel.segment_id) (rebooked inputs v) db.reservation_segments;
      reservations = update (is_reservation v.reservation_id) (charged inputs v) db.reservations;
    }

  rebook_segment_inv :
      (s t : Session) {rows : ReservationSegment × Reservation}
      → rebook_segment inputs sel v s ≡ ok (rows, t)
      → Rebooked s.db t.db rows
  unfolding rebook_segment
  rebook_segment_inv s t h =
      elim (Option-cases (find (is_segment sel.segment_id) s.db.reservation_segments)) [
        | inl e ↦ absurd (ground arith)
        | inr (segment, e) ↦
            elim (Option-cases (find (is_reservation v.reservation_id) s.db.reservations)) [
              | inl e' ↦ absurd (ground arith)
              | inr (reservation, e') ↦ record {
                segment = segment;
                reservation = reservation;
                segment_found = e;
                reservation_found = e';
                returned = ground arith;
                after = ground (
                  arith,
                  find_segment_id sel.segment_id s.db.reservation_segments e,
                  find_reservation_id v.reservation_id s.db.reservations e',
                );
              }
            ]
      ]

spend_inv :
    (credit_id : Option ℕ) (amount : ℤ) (s t : Session)
    → spend credit_id amount s ≡ ok (tt, t)
    → t.db ≡ record s.db { travel_credits = spent_rows credit_id amount s.db.travel_credits }
unfolding spend
spend_inv none amount s t h = ground arith
spend_inv (some credit_id) amount s t h =
    elim (Option-cases (find (is_credit credit_id) s.db.travel_credits)) [
      | inl e ↦ absurd (ground arith)
      | inr (credit, e) ↦ ground (arith, find_credit_id credit_id s.db.travel_credits e)
    ]

module _ (inputs : Inputs) (sel : Selection) (v : Validation) where
  -- All that an applied change did: the rows that it found and the tables that it left.
  pub record Applied (db db' : Database) (r : RebookingResult) : Type 0 where
    pub seats : Database
    pub seats_moved : Moved sel v db seats
    pub rows : ReservationSegment × Reservation
    pub booked : Database
    pub segment_rebooked : Rebooked inputs sel v seats booked rows
    pub after : db' ≡ record booked {
      travel_credits =
          spent_rows sel.travel_credit_id sel.travel_credit_amount booked.travel_credits;
      flight_changes = booked.flight_changes ++ flight_change inputs sel v ∷ [];
    }
    pub returned : r ≡ record {
      change = some (flight_change inputs sel v);
      segment = rows.0;
      booking_reference = rows.1.booking_reference;
    }

  abbrev result_of : ReservationSegment × Reservation → RebookingResult
  result_of rows = record {
    change = some (flight_change inputs sel v);
    segment = rows.0;
    booking_reference = rows.1.booking_reference;
  }

  -- The steps behind the two writes.
  pay_inv :
      (rows : ReservationSegment × Reservation) (s t : Session) {r : RebookingResult}
      → (spend sel.travel_credit_id sel.travel_credit_amount
            >> (record_change (flight_change inputs sel v) >> pure (result_of rows)))
          s
        ≡ ok (r, t)
      → (t.db ≡ record s.db {
        travel_credits =
            spent_rows sel.travel_credit_id sel.travel_credit_amount s.db.travel_credits;
        flight_changes = s.db.flight_changes ++ flight_change inputs sel v ∷ [];
      })
        × (r ≡ result_of rows)
  unfolding record_change
  pay_inv rows s t {r} h =
      let (_, u, paid, rest) =
        >>=-eq-ok (spend sel.travel_credit_id sel.travel_credit_amount) _ s h in
      end u (spend_inv sel.travel_credit_id sel.travel_credit_amount s u paid) rest
    where
      end :
          (u : Session)
          → u.db ≡ record s.db {
            travel_credits =
                spent_rows sel.travel_credit_id sel.travel_credit_amount s.db.travel_credits;
          }
          → (record_change (flight_change inputs sel v) >> pure (result_of rows)) u ≡ ok (r, t)
          → (t.db ≡ record s.db {
            travel_credits =
                spent_rows sel.travel_credit_id sel.travel_credit_amount s.db.travel_credits;
            flight_changes = s.db.flight_changes ++ flight_change inputs sel v ∷ [];
          })
            × (r ≡ result_of rows)
      end u e k = ground arith

  pub apply_change_inv :
      (s t : Session) {r : RebookingResult}
      → apply_change inputs sel v s ≡ ok (r, t)
      → Applied s.db t.db r
  unfolding apply_change
  apply_change_inv s t h =
      let (_, s₁, moved, h₁) = >>=-eq-ok (move_seats sel v) _ s h in
      let (rows, s₂, booked, h₂) = >>=-eq-ok (rebook_segment inputs sel v) _ s₁ h₁ in
      let (after, returned) = pay_inv rows s₂ t h₂ in
      record {
        seats = s₁.db;
        seats_moved = move_seats_inv sel v s s₁ moved;
        rows = rows;
        booked = s₂.db;
        segment_rebooked = rebook_segment_inv inputs sel v s₁ s₂ booked;
        after = after;
        returned = returned;
      }
