-- ===== src/Airline/Sql/Refinement.antt =====
-- A rebooking by statements is the abstract operation.
use mathlib.Core.List.{map-append}
use agents_at_scale.Prelude.{
  ℕ, ◌≡◌, refl, sym, ap, subst, ◌∙◌, Option, none, some, List, [], ◌∷◌, arith, find,
}
use agents_at_scale.Prelude.Eq.{nat_eq}
use agents_at_scale.Prelude.Int.{ℤ, ◌+ℤ◌, ◌-ℤ◌, ◌≤ℤ◌, leb_ℤ}
use agents_at_scale.Prelude.Keyed.{adjust, lookup, lookup-update_if, lookup-update_key, pair_eq}
use agents_at_scale.Airline.Errors
use agents_at_scale.Airline.Errors.{Result, ok}
use agents_at_scale.Airline.Models.{FlightFare, TravelCredit}
use agents_at_scale.Airline.Schemas.{Selection, Snapshot, Validation, RebookingResult}
use agents_at_scale.Airline.Database.{
  Database, Session, Tx, ◌>>◌, pure, lift, modify, >>=-eq-ok, atomically_inv, atomically_ok,
}
use agents_at_scale.Airline.Validation.{quote, validate_rebooking_selection}
use agents_at_scale.Airline.Validation.Rules.{CreditFits}
use agents_at_scale.Airline.Validation.Decision.{IsAllowed, validate-quote, validate-iff-IsAllowed}
use agents_at_scale.Airline.Service.{validate_at, execute_rebooking, validate_rebooking}
use agents_at_scale.Airline.Rebooking.{Validate}
use agents_at_scale.Airline.Snapshot.{is_fare}
use agents_at_scale.Airline.Rebooking.Outcome.{bind-ok}
use agents_at_scale.Airline.Rebooking.Reading.{Rows, CreditSeen}
use agents_at_scale.Airline.Sql.Queries.{
  decrement_flight_fare_seats, increment_flight_fare_seats, update_reservation_segment,
  update_reservation_total, consume_travel_credit, create_flight_change,
}
use agents_at_scale.Airline.Sql.Rebooking.{
  Inputs, get_snapshot, snapshot, new_change, move_seats, rebook_segment, spend, result_of,
  change_booking, execute, sql,
}
use agents_at_scale.Airline.Sql.Reading.{counted_fields, snapshot_inv}
use agents_at_scale.Airline.Sql.Agreement.{IsSound, CreditSeen-own, get_snapshot_own, read_inv}
use agents_at_scale.Airline.View.{
  view, rebook, Shows, view_of_Shows, fare_key, fare_shown, segment_key, segment_shown,
  reservation_key, reservation_shown, credit_key, credit_shown, change_shown, take_seats,
  give_seats, move_segment, charge, pay, pay_from,
}

abbrev pub consumed : Option ℕ → ℤ → List TravelCredit → List TravelCredit
consumed none amount rows = rows
consumed (some credit_id) amount rows = consume_travel_credit credit_id amount rows

-- The database after the writes, which follow the validation without a test.
abbrev pub written : Inputs → Selection → Validation → Database → Database
written inputs sel v db = record db {
  flight_fares = increment_flight_fare_seats v.passenger_count v.old_flight_id v.old_fare_class_id (
      decrement_flight_fare_seats v.passenger_count v.new_flight_id v.new_fare_class_id
        db.flight_fares);
  reservation_segments =
      update_reservation_segment inputs.now sel.segment_id v.new_flight_id v.new_fare_class_id
        v.new_price v.currency db.reservation_segments;
  reservations =
      update_reservation_total inputs.now v.reservation_id
        (v.fare_difference +ℤ v.change_fee -ℤ v.travel_credit_used) db.reservations;
  travel_credits = consumed sel.travel_credit_id sel.travel_credit_amount db.travel_credits;
  flight_changes = create_flight_change (new_change inputs sel v) db.flight_changes;
}

-- What `execute` read, allowed and wrote.
pub record Executed (inputs : Inputs) (validate : Validate) (sel : Selection) (db db' : Database)
    (r : RebookingResult) : Type 0 where
  pub snap : Snapshot
  pub credit : Option TravelCredit
  pub v : Validation
  pub read : Session
  pub seen : snapshot sel (record { db = db; locks = [] }) ≡ ok ((snap, credit), read)
  pub valid : validate sel snap credit ≡ ok v
  pub after : db' ≡ written inputs sel v db
  pub returned : r ≡ result_of sel v (new_change inputs sel v)

-- The steps behind the validation.
abbrev write_all : Inputs → Selection → Validation → Tx RebookingResult
write_all inputs sel v = do
  move_seats v
  rebook_segment inputs sel v
  spend sel
  modify (λ db. record db {
    flight_changes = create_flight_change (new_change inputs sel v) db.flight_changes;
  })
  pure (result_of sel v (new_change inputs sel v))

writes :
    (inputs : Inputs) (sel : Selection) (v : Validation) (credit_id : Option ℕ) (s t : Session)
    {r : RebookingResult}
    → sel.travel_credit_id ≡ credit_id
    → write_all inputs sel v s ≡ ok (r, t)
    → (t.db ≡ written inputs sel v s.db) × (r ≡ result_of sel v (new_change inputs sel v))
unfolding move_seats rebook_segment spend
writes inputs sel v none s t e h = ground arith
writes inputs sel v (some credit_id) s t e h = ground arith

lift_ok : (r : Result Validation) (s : Session) {v : Validation} → r ≡ ok v → lift r s ≡ ok (v, s)
lift_ok r s h = ground arith

lift_inv :
    (r : Result Validation) (s : Session) {v : Validation} {t : Session}
    → lift r s ≡ ok (v, t)
    → (r ≡ ok v) × (t ≡ s)
lift_inv r s h = ground arith

pub execute_inv :
    (inputs : Inputs) (validate : Validate) (sel : Selection) (db db' : Database)
    {r : RebookingResult}
    → execute inputs validate sel db ≡ (ok r, db')
    → Executed inputs validate sel db db' r
unfolding execute change_booking
execute_inv inputs validate sel db db' {r} h =
    let start : Session = record { db = db; locks = [] } in
    let (t, done, final) = atomically_inv (change_booking inputs validate sel) db db' h in
    let ((snap, credit), read, seen, rest) = >>=-eq-ok (snapshot sel) _ start done in
    let (v, read', lifted, tail) = >>=-eq-ok (lift (validate sel snap credit)) _ read rest in
    let (valid, same) = lift_inv (validate sel snap credit) read lifted in
    let (rows, _, _, unchanged) = snapshot_inv sel start seen in
    let (after, returned) = writes inputs sel v sel.travel_credit_id read' t refl tail in
    record {
      snap = snap;
      credit = credit;
      v = v;
      read = read;
      seen = seen;
      valid = valid;
      after =
          sym final
          ∙ after
          ∙ ap (λ (x : Database). written inputs sel v x)
              (ap (λ (x : Session). x.db) same ∙ unchanged);
      returned = returned;
    }

module _ (inputs : Inputs) (sel : Selection) (v : Validation) (db : Database) where
  fares_shown :
      ((row : FlightFare)
        → find (is_fare v.new_flight_id v.new_fare_class_id) db.flight_fares ≡ some row
        → v.passenger_count ≤ℤ row.available_seats)
      → (j : ℕ × ℕ)
      → lookup fare_key fare_shown
          (increment_flight_fare_seats v.passenger_count v.old_flight_id v.old_fare_class_id (
            decrement_flight_fare_seats v.passenger_count v.new_flight_id v.new_fare_class_id
              db.flight_fares))
          j
        ≡ adjust
            (v.old_flight_id, v.old_fare_class_id)
            (give_seats v.passenger_count)
            (adjust
              (v.new_flight_id, v.new_fare_class_id)
              (take_seats v.passenger_count)
              (lookup fare_key fare_shown db.flight_fares))
            j
  unfolding increment_flight_fare_seats decrement_flight_fare_seats
  fares_shown room j =
      let old : ℕ × ℕ = (v.old_flight_id, v.old_fare_class_id) in
      let new : ℕ × ℕ = (v.new_flight_id, v.new_fare_class_id) in
      lookup-update_key fare_key fare_shown _ (give_seats v.passenger_count) old _ (λ row. refl)
        (λ row. refl) j
      ∙ ap (λ shown. adjust old (give_seats v.passenger_count) shown j)
          (λ i k.
            lookup-update_if fare_key fare_shown
              (λ row. leb_ℤ v.passenger_count row.available_seats) _ (take_seats v.passenger_count)
              new db.flight_fares (λ row. refl) (λ row. refl) (λ row e. ground (arith, room row e))
              k i)

  credits_shown :
      (credit_id : Option ℕ) (now : ℕ) (snap : Snapshot) (credit : Option TravelCredit)
      → CreditFits credit_id sel.travel_credit_amount snap now credit
      → CreditSeen credit_id db credit
      → (j : ℕ)
      → lookup credit_key credit_shown
          (consumed credit_id sel.travel_credit_amount db.travel_credits)
          j
        ≡ pay_from credit_id sel.travel_credit_amount
            (lookup credit_key credit_shown db.travel_credits)
            j
  unfolding consume_travel_credit
  credits_shown none now snap credit fits seen j = refl
  credits_shown (some credit_id) now snap none fits seen j = absurd seen
  credits_shown (some credit_id) now snap (some c) fits seen j =
      let amount = sel.travel_credit_amount in
      lookup-update_if credit_key credit_shown (λ row. leb_ℤ amount row.remaining_amount) _
        (pay amount) credit_id db.travel_credits (λ row. refl) (λ row. refl)
        (λ row e. ground (arith, fits.enough)) j

pub target_found_again :
    (sel : Selection) (db : Database) (rows : Rows sel db) (credit : Option TravelCredit) (now : ℕ)
    → IsAllowed sel (counted_fields rows) credit now
    → find (is_fare rows.target.flight_id rows.target.fare_class_id) db.flight_fares
      ≡ some rows.target
target_found_again sel db rows credit now allowed =
    ap (λ (key : ℕ × ℕ). find (is_fare key.0 key.1) db.flight_fares)
      (λ i. (allowed.bookable.flight_selected i, allowed.bookable.fare_selected i))
    ∙ rows.target_found

module _ (inputs : Inputs) (sel : Selection) (db : Database) (rows : Rows sel db)
    (credit : Option TravelCredit) (now : ℕ)
    (allowed : IsAllowed sel (counted_fields rows) credit now)
    (seen : CreditSeen sel.travel_credit_id db credit) where
  room :
      (row : FlightFare)
      → find (is_fare rows.target.flight_id rows.target.fare_class_id) db.flight_fares ≡ some row
      → (counted_fields rows).passenger_count ≤ℤ row.available_seats
  room row e =
      let same : ◌≡◌ {A = Option FlightFare} (some rows.target) (some row) =
        sym (target_found_again sel db rows credit now allowed) ∙ e in
      let it : rows.target ≡ row = cc same in
      subst (λ x. (counted_fields rows).passenger_count ≤ℤ x.available_seats) it
        allowed.bookable.room

  written_Shows :
      Shows sel
        (quote sel (counted_fields rows))
        db
        (written inputs sel (quote sel (counted_fields rows)) db)
  unfolding quote update_reservation_segment update_reservation_total create_flight_change
      new_change
  written_Shows =
      let v = quote sel (counted_fields rows) in
      record {
        fares = fares_shown inputs sel v db room;
        segments =
            lookup-update_key segment_key segment_shown _ (move_segment v) sel.segment_id
              db.reservation_segments (λ row. refl) (λ row. refl);
        reservations =
            lookup-update_key reservation_key reservation_shown _
              (charge (v.fare_difference +ℤ v.change_fee -ℤ v.travel_credit_used)) v.reservation_id
              db.reservations (λ row. refl) (λ row. refl);
        credits =
            credits_shown inputs sel v db sel.travel_credit_id now (counted_fields rows) credit
              allowed.credit_fits seen;
        changes = map-append change_shown db.flight_changes (new_change inputs sel v ∷ []);
        customers = refl;
        passengers = refl;
        reservation_passengers = refl;
        flights = refl;
        fare_classes = refl;
      }

-- A rebooking that succeeded did, in view, what the abstract operation does for the validation.
pub sql_refines :
    (inputs : Inputs) (now : ℕ) (sel : Selection) (db db' : Database) {r : RebookingResult}
    → IsSound db
    → execute_rebooking (some (sql inputs)) now sel db ≡ (ok r, db')
    → (v : Validation) × (validate_rebooking (some (sql inputs)) now sel db ≡ ok v)
      × (view db' ≡ rebook sel v (view db))
unfolding execute_rebooking validate_rebooking
sql_refines inputs now sel db db' sound h =
    let e = execute_inv inputs (validate_at now) sel db db' h in
    let start : Session = record { db = db; locks = [] } in
    let (rows, same, own, _) = snapshot_inv sel start e.seen in
    let (priced, allowed) = validate-quote sel e.snap e.credit now e.valid in
    let quoted : e.v ≡ quote sel (counted_fields rows) = priced ∙ ap (quote sel) same in
    let allowed' = subst (λ s. IsAllowed sel s e.credit now) same allowed in
    let shows =
      written_Shows inputs sel db rows e.credit now allowed'
        (CreditSeen-own sel.travel_credit_id _ db e.credit sound own) in
    let v = quote sel (counted_fields rows) in
    let read = get_snapshot_own rows e.credit own in
    let valid : validate_rebooking_selection sel (counted_fields rows) e.credit now ≡ ok v =
      (validate-iff-IsAllowed sel (counted_fields rows) e.credit now).1 allowed' in
    let final : db' ≡ written inputs sel v db =
      e.after ∙ ap (λ w. written inputs sel w db) quoted in
    (v, rw read valid, ap view final ∙ view_of_Shows sel v db (written inputs sel v db) shows)

writes_total :
    (inputs : Inputs) (sel : Selection) (v : Validation) (credit_id : Option ℕ) (s : Session)
    → sel.travel_credit_id ≡ credit_id
    → (t : Session) × (write_all inputs sel v s ≡ ok (result_of sel v (new_change inputs sel v), t))
unfolding move_seats rebook_segment spend
writes_total inputs sel v none s e = (record s { db = written inputs sel v s.db }, ground arith)
writes_total inputs sel v (some credit_id) s e =
    (record s { db = written inputs sel v s.db }, ground arith)

-- Nothing fails behind the validation.
pub sql_total :
    (inputs : Inputs) (now : ℕ) (sel : Selection) (db : Database) (v : Validation)
    → validate_rebooking (some (sql inputs)) now sel db ≡ ok v
    → (r : RebookingResult) × (db' : Database) × (execute_rebooking (some (sql inputs)) now sel db
        ≡ (ok r, db'))
unfolding execute_rebooking validate_rebooking execute change_booking
sql_total inputs now sel db v h =
    let start : Session = record { db = db; locks = [] } in
    let ((snap, credit), read, valid) = Errors.>>=-eq-ok (get_snapshot sel db) _ h in
    let (s, done) = read_inv sel db read in
    let (t, rest) = writes_total inputs sel v sel.travel_credit_id s refl in
    (
      result_of sel v (new_change inputs sel v),
      t.db,
      atomically_ok (change_booking inputs (validate_at now) sel) db (
          bind-ok (snapshot sel) _ start done
          ∙ bind-ok (lift (validate_at now sel snap credit)) _ s (lift_ok _ s valid)
          ∙ rest),
    )
