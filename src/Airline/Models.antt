-- ===== src/Airline/Models.antt =====
-- The rows of the database (langgraph-python/app/airline/models.py). An id is a UUID and a date
-- a point in time, of which the program uses the order only: both are numbers. A `Decimal` with two
-- places is a number of cents. A relationship is no column: Database.antt follows it.
use agents_at_scale.Prelude.{ℕ, String, ◌≡◌, ◌↔◌, Bool, true, Option, arith, nat_beq}
use agents_at_scale.Prelude.Int.{ℤ}
use agents_at_scale.Prelude.Eq.{Eq}

pub data ReservationStatus : Type 0 where
  confirmed cancelled completed : ReservationStatus

pub data FlightStatus : Type 0 where
  scheduled delayed cancelled boarding departed completed : FlightStatus

pub data SegmentStatus : Type 0 where
  confirmed changed cancelled flown : SegmentStatus

pub data TravelCreditStatus : Type 0 where
  available partially_used used expired : TravelCreditStatus

abbrev reservation_rank : ReservationStatus → ℕ
reservation_rank ReservationStatus.confirmed = 0
reservation_rank ReservationStatus.cancelled = 1
reservation_rank ReservationStatus.completed = 2

pub reservation_status_beq_iff :
    (a b : ReservationStatus) → (nat_beq (reservation_rank a) (reservation_rank b) ≡ true) ↔ (a ≡ b)
reservation_status_beq_iff a b = ground arith

instance abbrev pub reservation_status_eq : Eq ReservationStatus
reservation_status_eq = record {
  beq = λ a b. nat_beq (reservation_rank a) (reservation_rank b);
  beq_iff = reservation_status_beq_iff;
}

abbrev flight_rank : FlightStatus → ℕ
flight_rank FlightStatus.scheduled = 0
flight_rank FlightStatus.delayed = 1
flight_rank FlightStatus.cancelled = 2
flight_rank FlightStatus.boarding = 3
flight_rank FlightStatus.departed = 4
flight_rank FlightStatus.completed = 5

pub flight_status_beq_iff :
    (a b : FlightStatus) → (nat_beq (flight_rank a) (flight_rank b) ≡ true) ↔ (a ≡ b)
flight_status_beq_iff a b = ground arith

instance abbrev pub flight_status_eq : Eq FlightStatus
flight_status_eq = record {
  beq = λ a b. nat_beq (flight_rank a) (flight_rank b);
  beq_iff = flight_status_beq_iff;
}

abbrev segment_rank : SegmentStatus → ℕ
segment_rank SegmentStatus.confirmed = 0
segment_rank SegmentStatus.changed = 1
segment_rank SegmentStatus.cancelled = 2
segment_rank SegmentStatus.flown = 3

pub segment_status_beq_iff :
    (a b : SegmentStatus) → (nat_beq (segment_rank a) (segment_rank b) ≡ true) ↔ (a ≡ b)
segment_status_beq_iff a b = ground arith

instance abbrev pub segment_status_eq : Eq SegmentStatus
segment_status_eq = record {
  beq = λ a b. nat_beq (segment_rank a) (segment_rank b);
  beq_iff = segment_status_beq_iff;
}

abbrev travel_credit_rank : TravelCreditStatus → ℕ
travel_credit_rank TravelCreditStatus.available = 0
travel_credit_rank TravelCreditStatus.partially_used = 1
travel_credit_rank TravelCreditStatus.used = 2
travel_credit_rank TravelCreditStatus.expired = 3

pub travel_credit_status_beq_iff :
    (a b : TravelCreditStatus)
    → (nat_beq (travel_credit_rank a) (travel_credit_rank b) ≡ true) ↔ (a ≡ b)
travel_credit_status_beq_iff a b = ground arith

instance abbrev pub travel_credit_status_eq : Eq TravelCreditStatus
travel_credit_status_eq = record {
  beq = λ a b. nat_beq (travel_credit_rank a) (travel_credit_rank b);
  beq_iff = travel_credit_status_beq_iff;
}

pub record Customer : Type 0 where
  pub id : ℕ
  pub first_name : String
  pub last_name : String
  pub email : String
  pub phone : Option String
  pub created_at : ℕ
  pub updated_at : ℕ

pub record Passenger : Type 0 where
  pub id : ℕ
  pub first_name : String
  pub last_name : String
  pub document_number : String
  pub created_at : ℕ

pub record ReservationPassenger : Type 0 where
  pub reservation_id : ℕ
  pub passenger_id : ℕ

pub record Reservation : Type 0 where
  pub id : ℕ
  pub booking_reference : String
  pub customer_id : ℕ
  pub status : ReservationStatus
  pub total_amount : ℤ
  pub currency : String
  pub created_at : ℕ
  pub updated_at : ℕ

pub record Flight : Type 0 where
  pub id : ℕ
  pub flight_number : String
  pub origin_airport : String
  pub destination_airport : String
  pub departure_at : ℕ
  pub arrival_at : ℕ
  pub status : FlightStatus
  pub capacity : ℤ
  pub created_at : ℕ
  pub updated_at : ℕ

pub record FareClass : Type 0 where
  pub id : ℕ
  pub code : String
  pub name : String
  pub change_allowed : Bool
  pub cancellation_allowed : Bool
  pub change_fee : ℤ
  pub cancellation_fee : ℤ
  pub created_at : ℕ

pub record FlightFare : Type 0 where
  pub id : ℕ
  pub flight_id : ℕ
  pub fare_class_id : ℕ
  pub price : ℤ
  pub currency : String
  pub available_seats : ℤ

pub record ReservationSegment : Type 0 where
  pub id : ℕ
  pub reservation_id : ℕ
  pub flight_id : ℕ
  pub fare_class_id : ℕ
  pub status : SegmentStatus
  pub price_paid : ℤ
  pub currency : String
  pub created_at : ℕ
  pub updated_at : ℕ

pub record TravelCredit : Type 0 where
  pub id : ℕ
  pub customer_id : ℕ
  pub original_amount : ℤ
  pub remaining_amount : ℤ
  pub currency : String
  pub status : TravelCreditStatus
  pub expires_at : ℕ
  pub created_at : ℕ

pub record FlightChange : Type 0 where
  pub id : ℕ
  pub reservation_segment_id : ℕ
  pub old_flight_id : ℕ
  pub new_flight_id : ℕ
  pub old_fare_class_id : ℕ
  pub new_fare_class_id : ℕ
  pub fare_difference : ℤ
  pub change_fee : ℤ
  pub travel_credit_used : ℤ
  pub currency : String
  pub created_at : ℕ
