-- ===== src/Airline/Schemas.antt =====
-- The data that the service hands over (langgraph-python/app/airline/schemas.py). A schema that
-- copies the columns of a row is that row's record.
use agents_at_scale.Prelude.{ℕ, String, Bool, Option, List}
use agents_at_scale.Prelude.Int.{ℤ}
use agents_at_scale.Airline.Models.{
  ReservationStatus, FlightStatus, SegmentStatus, Customer, Passenger, Reservation, Flight,
  FareClass, FlightFare, ReservationSegment, FlightChange,
}

pub record ReservationSegmentDetails : Type 0 where
  pub segment : ReservationSegment
  pub flight : Flight
  pub fare_class : FareClass

pub record ReservationDetails : Type 0 where
  pub reservation : Reservation
  pub customer : Customer
  pub passengers : List Passenger
  pub segments : List ReservationSegmentDetails

pub record SearchInput : Type 0 where
  pub segment_id : ℕ
  pub departure_from : ℕ
  pub departure_to : ℕ
  pub passenger_count : ℤ

pub record SearchParams : Type 0 where
  pub origin : String
  pub destination : String
  pub departure_from : ℕ
  pub departure_to : ℕ
  pub passenger_count : ℤ

pub record AvailableFare : Type 0 where
  pub fare_class : FareClass
  pub flight_fare : FlightFare

pub record AvailableFlight : Type 0 where
  pub flight : Flight
  pub fares : List AvailableFare

pub record RebookingOption : Type 0 where
  pub flight : Flight
  pub fare_class : FareClass
  pub flight_fare : FlightFare
  pub fare_difference : ℤ
  pub change_fee : ℤ

pub record Selection : Type 0 where
  pub segment_id : ℕ
  pub new_flight_id : ℕ
  pub new_fare_class_id : ℕ
  pub travel_credit_id : Option ℕ
  pub travel_credit_amount : ℤ

pub record Snapshot : Type 0 where
  pub segment_id : ℕ
  pub reservation_id : ℕ
  pub customer_id : ℕ
  pub old_flight_id : ℕ
  pub old_fare_class_id : ℕ
  pub segment_status : SegmentStatus
  pub reservation_status : ReservationStatus
  pub old_flight_status : FlightStatus
  pub origin_airport : String
  pub destination_airport : String
  pub old_departure_at : ℕ
  pub old_price : ℤ
  pub old_currency : String
  pub old_change_allowed : Bool
  pub target_flight_id : ℕ
  pub target_fare_class_id : ℕ
  pub target_status : FlightStatus
  pub target_origin : String
  pub target_destination : String
  pub target_departure_at : ℕ
  pub target_price : ℤ
  pub target_currency : String
  pub available_seats : ℤ
  pub target_change_allowed : Bool
  pub target_change_fee : ℤ
  pub passenger_count : ℤ

pub record Validation : Type 0 where
  pub selection : Selection
  pub reservation_id : ℕ
  pub customer_id : ℕ
  pub old_flight_id : ℕ
  pub old_fare_class_id : ℕ
  pub new_flight_id : ℕ
  pub new_fare_class_id : ℕ
  pub new_price : ℤ
  pub fare_difference : ℤ
  pub change_fee : ℤ
  pub amount_due : ℤ
  pub travel_credit_used : ℤ
  pub currency : String
  pub passenger_count : ℤ

pub record RebookingResult : Type 0 where
  pub change : Option FlightChange
  pub segment : ReservationSegment
  pub booking_reference : String
