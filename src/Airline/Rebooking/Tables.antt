-- ===== src/Airline/Rebooking/Tables.antt =====
-- The tables after a rebooking that succeeded.
use agents_at_scale.Prelude.{ℕ, ◌≡◌, ap, subst, ◌∙◌, Option, some, [], ◌∷◌, ◌++◌, update}
use agents_at_scale.Airline.Errors.{ok}
use agents_at_scale.Airline.Models.{TravelCredit}
use agents_at_scale.Airline.Schemas.{Selection, Validation, RebookingResult}
use agents_at_scale.Airline.Database.{Database}
use agents_at_scale.Airline.Validation.{quote}
use agents_at_scale.Airline.Validation.Decision.{IsAllowed, validate-quote}
use agents_at_scale.Airline.Service.{orm, validate_at, execute_rebooking}
use agents_at_scale.Airline.Rebooking.{Inputs, rebooked, charged, set_seats, flight_change}
use agents_at_scale.Airline.Snapshot.{is_segment, is_reservation}
use agents_at_scale.Airline.Rebooking.Effects.{Applied, spent_rows}
use agents_at_scale.Airline.Rebooking.Execution.{execute_inv}
use agents_at_scale.Airline.Rebooking.Reading.{Rows, fields_of, CreditSeen, get_snapshot_inv}

-- The tables that differ, each from the table that it was.
module _ (inputs : Inputs) (sel : Selection) (v : Validation) (db db' : Database) where
  pub record Tables : Type 0 where
    pub segments :
        db'.reservation_segments
        ≡ update (is_segment sel.segment_id) (rebooked inputs v) db.reservation_segments
    pub reservations :
        db'.reservations
        ≡ update (is_reservation v.reservation_id) (charged inputs v) db.reservations
    pub credits :
        db'.travel_credits
        ≡ spent_rows sel.travel_credit_id sel.travel_credit_amount db.travel_credits
    pub changes : db'.flight_changes ≡ db.flight_changes ++ flight_change inputs sel v ∷ []
    pub flights : db'.flights ≡ db.flights
    pub fare_classes : db'.fare_classes ≡ db.fare_classes
    pub customers : db'.customers ≡ db.customers
    pub passengers : db'.passengers ≡ db.passengers
    pub reservation_passengers : db'.reservation_passengers ≡ db.reservation_passengers

  tables_of : {r : RebookingResult} → Applied inputs sel v db db' r → Tables
  unfolding set_seats
  tables_of a =
      let m = a.seats_moved.after in
      let b = a.segment_rebooked.after in
      record {
        segments = rw (a.after, b, m);
        reservations = rw (a.after, b, m);
        credits = rw (a.after, b, m);
        changes = rw (a.after, b, m);
        flights = rw (a.after, b, m);
        fare_classes = rw (a.after, b, m);
        customers = rw (a.after, b, m);
        passengers = rw (a.after, b, m);
        reservation_passengers = rw (a.after, b, m);
      }

-- A rebooking that succeeded: the rows that it read, what was allowed of them, and what it wrote.
pub record Booking (inputs : Inputs) (now : ℕ) (sel : Selection) (db db' : Database)
    (r : RebookingResult) : Type 0 where
  pub rows : Rows sel db
  pub credit : Option TravelCredit
  pub credit_seen : CreditSeen sel.travel_credit_id db credit
  pub allowed : IsAllowed sel (fields_of rows) credit now
  pub applied : Applied inputs sel (quote sel (fields_of rows)) db db' r
  pub tables : Tables inputs sel (quote sel (fields_of rows)) db db'

pub execute_rebooking_inv :
    (inputs : Inputs) (now : ℕ) (sel : Selection) (db db' : Database) {r : RebookingResult}
    → execute_rebooking (some (orm inputs)) now sel db ≡ (ok r, db')
    → Booking inputs now sel db db' r
unfolding execute_rebooking
execute_rebooking_inv inputs now sel db db' {r} h =
    let e = execute_inv inputs (validate_at now) sel db db' h in
    let (rows, same, seen) = get_snapshot_inv sel db e.seen in
    let (quoted, allowed) = validate-quote sel e.snap e.credit now e.valid in
    let priced : e.v ≡ quote sel (fields_of rows) = quoted ∙ ap (quote sel) same in
    let applied : Applied inputs sel (quote sel (fields_of rows)) db db' r =
      subst (λ v. Applied inputs sel v db db' r) priced e.applied in
    record {
      rows = rows;
      credit = e.credit;
      credit_seen = seen;
      allowed = subst (λ s. IsAllowed sel s e.credit now) same allowed;
      applied = applied;
      tables = tables_of inputs sel (quote sel (fields_of rows)) db db' applied;
    }
