-- ===== src/Airline/View.antt =====
-- What a rebooking promises, over a view of the database that forgets the order of the rows, the
-- times of the writes and the ids of the changes: a table is what each key shows.
use agents_at_scale.Prelude.{ℕ, ◌≡◌, Option, none, some, List, [], ◌∷◌, ◌++◌, map, if◌then◌else◌}
use agents_at_scale.Prelude.Eq.{◌==◌, nat_eq}
use agents_at_scale.Prelude.Int.{ℤ, pos, int_eq, ◌+ℤ◌, ◌-ℤ◌}
use agents_at_scale.Prelude.Keyed.{adjust, lookup, pair_eq}
use agents_at_scale.Airline.Models.{
  Customer, Passenger, ReservationPassenger, Reservation, Flight, FareClass, FlightFare,
  SegmentStatus, ReservationSegment, TravelCreditStatus, TravelCredit, FlightChange,
}
use agents_at_scale.Airline.Schemas.{Selection, Validation}
use agents_at_scale.Airline.Database.{Database}

pub record View : Type 0 where
  pub fares : ℕ × ℕ → Option FlightFare
  pub segments : ℕ → Option ReservationSegment
  pub reservations : ℕ → Option Reservation
  pub credits : ℕ → Option TravelCredit
  pub changes : List FlightChange
  pub customers : List Customer
  pub passengers : List Passenger
  pub reservation_passengers : List ReservationPassenger
  pub flights : List Flight
  pub fare_classes : List FareClass

abbrev pub fare_key : FlightFare → ℕ × ℕ
fare_key row = (row.flight_id, row.fare_class_id)

abbrev pub fare_shown : FlightFare → FlightFare
fare_shown row = row

abbrev pub segment_key : ReservationSegment → ℕ
segment_key row = row.id

abbrev pub segment_shown : ReservationSegment → ReservationSegment
segment_shown row = record row { updated_at = 0 }

abbrev pub reservation_key : Reservation → ℕ
reservation_key row = row.id

abbrev pub reservation_shown : Reservation → Reservation
reservation_shown row = record row { updated_at = 0 }

abbrev pub credit_key : TravelCredit → ℕ
credit_key row = row.id

abbrev pub credit_shown : TravelCredit → TravelCredit
credit_shown row = row

abbrev pub change_shown : FlightChange → FlightChange
change_shown row = record row { id = 0; created_at = 0 }

pub view : Database → View
view db = record {
  fares = lookup fare_key fare_shown db.flight_fares;
  segments = lookup segment_key segment_shown db.reservation_segments;
  reservations = lookup reservation_key reservation_shown db.reservations;
  credits = lookup credit_key credit_shown db.travel_credits;
  changes = map change_shown db.flight_changes;
  customers = db.customers;
  passengers = db.passengers;
  reservation_passengers = db.reservation_passengers;
  flights = db.flights;
  fare_classes = db.fare_classes;
}

abbrev pub take_seats : ℤ → FlightFare → FlightFare
take_seats seats row = record row { available_seats = row.available_seats -ℤ seats }

abbrev pub give_seats : ℤ → FlightFare → FlightFare
give_seats seats row = record row { available_seats = row.available_seats +ℤ seats }

abbrev pub move_segment : Validation → ReservationSegment → ReservationSegment
move_segment v row = record row {
  flight_id = v.new_flight_id;
  fare_class_id = v.new_fare_class_id;
  price_paid = v.new_price;
  currency = v.currency;
  status = SegmentStatus.changed;
}

abbrev pub charge : ℤ → Reservation → Reservation
charge amount row = record row { total_amount = row.total_amount +ℤ amount }

abbrev pub pay : ℤ → TravelCredit → TravelCredit
pay amount row = record row {
  remaining_amount = row.remaining_amount -ℤ amount;
  status =
      if row.remaining_amount -ℤ amount == pos 0
      then TravelCreditStatus.used
      else TravelCreditStatus.partially_used;
}

abbrev pub logged : Selection → Validation → FlightChange
logged sel v = record {
  id = 0;
  reservation_segment_id = sel.segment_id;
  old_flight_id = v.old_flight_id;
  new_flight_id = v.new_flight_id;
  old_fare_class_id = v.old_fare_class_id;
  new_fare_class_id = v.new_fare_class_id;
  fare_difference = v.fare_difference;
  change_fee = v.change_fee;
  travel_credit_used = v.travel_credit_used;
  currency = v.currency;
  created_at = 0;
}

abbrev pub pay_from : Option ℕ → ℤ → (ℕ → Option TravelCredit) → ℕ → Option TravelCredit
pay_from none amount credits = credits
pay_from (some credit_id) amount credits = adjust credit_id (pay amount) credits

-- The abstract operation: seats pass from the new fare to the old, the segment shows the new fare, its
-- reservation the new total and the credit what is left of it, and the change is logged.
pub rebook : Selection → Validation → View → View
rebook sel v w = record w {
  fares =
      adjust (v.old_flight_id, v.old_fare_class_id) (give_seats v.passenger_count)
        (adjust (v.new_flight_id, v.new_fare_class_id) (take_seats v.passenger_count) w.fares);
  segments = adjust sel.segment_id (move_segment v) w.segments;
  reservations =
      adjust v.reservation_id (charge (v.fare_difference +ℤ v.change_fee -ℤ v.travel_credit_used))
        w.reservations;
  credits = pay_from sel.travel_credit_id sel.travel_credit_amount w.credits;
  changes = w.changes ++ logged sel v ∷ [];
}

-- A database that shows what the operation gives, table by table.
module _ (sel : Selection) (v : Validation) (db db' : Database) where
  pub record Shows : Type 0 where
    pub fares :
        (j : ℕ × ℕ)
        → lookup fare_key fare_shown db'.flight_fares j
          ≡ adjust
              (v.old_flight_id, v.old_fare_class_id)
              (give_seats v.passenger_count)
              (adjust
                (v.new_flight_id, v.new_fare_class_id)
                (take_seats v.passenger_count)
                (lookup fare_key fare_shown db.flight_fares))
              j
    pub segments :
        (j : ℕ)
        → lookup segment_key segment_shown db'.reservation_segments j
          ≡ adjust sel.segment_id
              (move_segment v)
              (lookup segment_key segment_shown db.reservation_segments)
              j
    pub reservations :
        (j : ℕ)
        → lookup reservation_key reservation_shown db'.reservations j
          ≡ adjust v.reservation_id
              (charge (v.fare_difference +ℤ v.change_fee -ℤ v.travel_credit_used))
              (lookup reservation_key reservation_shown db.reservations)
              j
    pub credits :
        (j : ℕ)
        → lookup credit_key credit_shown db'.travel_credits j
          ≡ pay_from sel.travel_credit_id sel.travel_credit_amount
              (lookup credit_key credit_shown db.travel_credits)
              j
    pub changes :
        map change_shown db'.flight_changes
        ≡ map change_shown db.flight_changes ++ logged sel v ∷ []
    pub customers : db'.customers ≡ db.customers
    pub passengers : db'.passengers ≡ db.passengers
    pub reservation_passengers : db'.reservation_passengers ≡ db.reservation_passengers
    pub flights : db'.flights ≡ db.flights
    pub fare_classes : db'.fare_classes ≡ db.fare_classes

  pub view_of_Shows : Shows → view db' ≡ rebook sel v (view db)
  unfolding view rebook
  view_of_Shows s = λ i. record {
    fares = λ j. s.fares j i;
    segments = λ j. s.segments j i;
    reservations = λ j. s.reservations j i;
    credits = λ j. s.credits j i;
    changes = s.changes i;
    customers = s.customers i;
    passengers = s.passengers i;
    reservation_passengers = s.reservation_passengers i;
    flights = s.flights i;
    fare_classes = s.fare_classes i;
  }
