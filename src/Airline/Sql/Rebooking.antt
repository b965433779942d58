-- ===== src/Airline/Sql/Rebooking.antt =====
-- The transactional rebooking over plain statements
-- (langgraph-python/app/airline/repository/sql/rebooking.py).
use agents_at_scale.Prelude.{ℕ, Option, none, some, ◌||◌, if◌then◌else◌, true}
use agents_at_scale.Prelude.Eq.{◌!=◌, nat_eq}
use agents_at_scale.Prelude.Int.{◌+ℤ◌, ◌-ℤ◌}
use agents_at_scale.Airline.Errors.{
  Result, ok, err, segment_not_found, flight_not_found, travel_credit_not_found, verification_error,
}
use agents_at_scale.Airline.Models.{
  FlightChange, ReservationSegment, SegmentStatus, segment_status_eq, TravelCredit,
}
use agents_at_scale.Airline.Schemas.{Selection, Snapshot, Validation, RebookingResult}
use agents_at_scale.Airline.Database.{
  Database, segment_row, reservation_row, flight_row, fare_row, credit_row, Tx, ◌>>=◌, ◌>>◌, pure,
  lift, gets, modify, or_raise, hold, atomically,
}
use agents_at_scale.Airline.Rebooking.{Validate}
use agents_at_scale.Airline.Service.{RebookingRepository}
use agents_at_scale.Airline.Sql.Queries.{
  SegmentRow, TargetRow, ResultRow, get_rebooking_segment, get_rebooking_target, get_travel_credit,
  decrement_flight_fare_seats, increment_flight_fare_seats, update_reservation_segment,
  update_reservation_total, consume_travel_credit, create_flight_change, get_rebooking_result,
}

-- What `uuid4()` returns, and the time of the transaction.
pub record Inputs : Type 0 where
  pub change_id : ℕ
  pub now : ℕ

unfoldable pub fill_snapshot : SegmentRow → TargetRow → Snapshot
fill_snapshot segment target = record {
  segment_id = segment.segment_id;
  reservation_id = segment.reservation_id;
  customer_id = segment.customer_id;
  old_flight_id = segment.old_flight_id;
  old_fare_class_id = segment.old_fare_class_id;
  segment_status = segment.segment_status;
  reservation_status = segment.reservation_status;
  old_flight_status = segment.old_flight_status;
  origin_airport = segment.origin_airport;
  destination_airport = segment.destination_airport;
  old_departure_at = segment.old_departure_at;
  old_price = segment.price_paid;
  old_currency = segment.segment_currency;
  old_change_allowed = segment.old_change_allowed;
  target_flight_id = target.flight_id;
  target_fare_class_id = target.fare_class_id;
  target_status = target.flight_status;
  target_origin = target.origin_airport;
  target_destination = target.destination_airport;
  target_departure_at = target.departure_at;
  target_price = target.price;
  target_currency = target.currency;
  available_seats = target.available_seats;
  target_change_allowed = target.change_allowed;
  target_change_fee = target.change_fee;
  passenger_count = segment.passenger_count;
}

unfoldable pub selected_credit : Option ℕ → ℕ → Tx (Option TravelCredit)
selected_credit none customer_id = pure none
selected_credit (some credit_id) customer_id = do
  found ← gets (get_travel_credit credit_id customer_id)
  credit ← or_raise found (travel_credit_not_found "travel credit not found")
  hold true (credit_row credit.id)
  pure (some credit)

-- `_snapshot`
unfoldable pub snapshot : Selection → Tx (Snapshot × Option TravelCredit)
snapshot sel = do
  found_segment ← gets (get_rebooking_segment sel.segment_id)
  segment ← or_raise found_segment (segment_not_found "reservation segment not found")
  hold true (segment_row segment.segment_id)
  hold true (reservation_row segment.reservation_id)
  found_target ← gets (get_rebooking_target sel.new_flight_id sel.new_fare_class_id)
  target ← or_raise found_target (flight_not_found "target flight or fare not found")
  hold true (flight_row target.flight_id)
  hold true (fare_row (target.flight_id, target.fare_class_id))
  credit ← selected_credit sel.travel_credit_id segment.customer_id
  pure (fill_snapshot segment target, credit)

-- `get_snapshot`: with no transaction around them, the statements hold no lock for longer.
unfoldable pub get_snapshot : Selection → Database → Result (Snapshot × Option TravelCredit)
get_snapshot sel db = (atomically (snapshot sel) db).0

unfoldable pub new_change : Inputs → Selection → Validation → FlightChange
new_change inputs sel v = record {
  id = inputs.change_id;
  reservation_segment_id = sel.segment_id;
  old_flight_id = v.old_flight_id;
  new_flight_id = v.new_flight_id;
  old_fare_class_id = v.old_fare_class_id;
  new_fare_class_id = v.new_fare_class_id;
  fare_difference = v.fare_difference;
  change_fee = v.change_fee;
  travel_credit_used = v.travel_credit_used;
  currency = v.currency;
  created_at = inputs.now;
}

-- The numbers of rows that the updates report are not looked at.
unfoldable pub move_seats : Validation → Tx (Unit {0})
move_seats v = do
  modify (λ db. record db {
    flight_fares =
        decrement_flight_fare_seats v.passenger_count v.new_flight_id v.new_fare_class_id
          db.flight_fares;
  })
  modify (λ db. record db {
    flight_fares =
        increment_flight_fare_seats v.passenger_count v.old_flight_id v.old_fare_class_id
          db.flight_fares;
  })

unfoldable pub rebook_segment : Inputs → Selection → Validation → Tx (Unit {0})
rebook_segment inputs sel v = do
  modify (λ db. record db {
    reservation_segments =
        update_reservation_segment inputs.now sel.segment_id v.new_flight_id v.new_fare_class_id
          v.new_price v.currency db.reservation_segments;
  })
  modify (λ db. record db {
    reservations =
        update_reservation_total inputs.now v.reservation_id
          (v.fare_difference +ℤ v.change_fee -ℤ v.travel_credit_used) db.reservations;
  })

unfoldable pub spend : Selection → Tx (Unit {0})
spend sel = elim sel.travel_credit_id [
  | none ↦ pure tt
  | some credit_id ↦ modify (λ db. record db {
    travel_credits = consume_travel_credit credit_id sel.travel_credit_amount db.travel_credits;
  })
]

-- The result of `execute`, whose booking reference is empty.
unfoldable pub result_of : Selection → Validation → FlightChange → RebookingResult
result_of sel v change = record {
  change = some change;
  segment = record {
    id = sel.segment_id;
    reservation_id = v.reservation_id;
    flight_id = v.new_flight_id;
    fare_class_id = v.new_fare_class_id;
    status = SegmentStatus.changed;
    price_paid = v.new_price;
    currency = v.currency;
    created_at = change.created_at;
    updated_at = change.created_at;
  };
  booking_reference = "";
}

unfoldable pub change_booking : Inputs → Validate → Selection → Tx RebookingResult
change_booking inputs validate sel = do
  seen ← snapshot sel
  v ← lift (validate sel seen.0 seen.1)
  move_seats v
  rebook_segment inputs sel v
  spend sel
  modify (λ db. record db {
    flight_changes = create_flight_change (new_change inputs sel v) db.flight_changes;
  })
  pure (result_of sel v (new_change inputs sel v))

unfoldable pub execute :
    Inputs → Validate → Selection → Database → Result RebookingResult × Database
execute inputs validate sel db = atomically (change_booking inputs validate sel) db

-- The query selects no times: `_EPOCH` stands for them.
unfoldable pub segment_of : ResultRow → ReservationSegment
segment_of row = record {
  id = row.segment_id;
  reservation_id = row.reservation_id;
  flight_id = row.flight_id;
  fare_class_id = row.fare_class_id;
  status = row.segment_status;
  price_paid = row.price_paid;
  currency = row.currency;
  created_at = 0;
  updated_at = 0;
}

unfoldable pub verified : Selection → Option ResultRow → Result RebookingResult
verified sel none = err (segment_not_found "reservation segment not found")
verified sel (some row) =
    if row.flight_id != sel.new_flight_id
      || row.fare_class_id != sel.new_fare_class_id
      || row.segment_status != SegmentStatus.changed
    then err (verification_error "rebooking verification failed")
    else ok (record {
      change = none;
      segment = segment_of row;
      booking_reference = row.booking_reference;
    })

unfoldable pub verify : Selection → Database → Result RebookingResult
verify sel db = verified sel (get_rebooking_result sel.segment_id db)

abbrev pub sql : Inputs → RebookingRepository
sql inputs = record { get_snapshot = get_snapshot; execute = execute inputs; verify = verify }
