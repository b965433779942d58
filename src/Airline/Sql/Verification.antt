-- ===== src/Airline/Sql/Verification.antt =====
-- What `verify` reads after an `execute` of the statements.
use agents_at_scale.Prelude.{
  ℕ, ◌≡◌, refl, sym, ap, subst, ◌∙◌, [], none, some, arith, find, find-update_self,
}
use agents_at_scale.Prelude.Eq.{nat_eq}
use agents_at_scale.Prelude.Int.{◌+ℤ◌, ◌-ℤ◌}
use agents_at_scale.Airline.Errors.{ok}
use agents_at_scale.Airline.Models.{
  SegmentStatus, segment_status_eq, ReservationSegment, Reservation,
}
use agents_at_scale.Airline.Schemas.{Selection, Validation, RebookingResult}
use agents_at_scale.Airline.Database.{Database, Session}
use agents_at_scale.Airline.Validation.{quote}
use agents_at_scale.Airline.Validation.Decision.{IsAllowed, validate-quote}
use agents_at_scale.Airline.Service.{validate_at, execute_rebooking, verify_rebooking}
use agents_at_scale.Airline.Snapshot.{is_segment, is_reservation}
use agents_at_scale.Airline.Rebooking.Effects.{find_segment_id}
use agents_at_scale.Airline.Rebooking.Reading.{Rows}
use agents_at_scale.Airline.Sql.Queries.{
  update_reservation_segment, update_reservation_total, join_result, get_rebooking_result,
}
use agents_at_scale.Airline.Sql.Rebooking.{
  Inputs, new_change, result_of, segment_of, verified, verify, sql,
}
use agents_at_scale.Airline.Sql.Reading.{counted_fields, snapshot_inv}
use agents_at_scale.Airline.Sql.Refinement.{written, execute_inv}

-- What the verification reads is what a result says.
abbrev Confirms : Inputs → Selection → Database → RebookingResult → Database → Type 0
Confirms inputs sel db r db' =
    (reservation : Reservation) × (find (is_reservation r.segment.reservation_id) db.reservations
      ≡ some reservation)
    × (r.booking_reference ≡ "")
    × (verify_rebooking (some (sql inputs)) sel db'
        ≡ ok (record {
          change = none;
          segment = record r.segment { created_at = 0; updated_at = 0 };
          booking_reference = reservation.booking_reference;
        }))

module _ (inputs : Inputs) (sel : Selection) (db : Database) (rows : Rows sel db) where
  verify_written :
      rows.target.flight_id ≡ sel.new_flight_id
      → rows.target.fare_class_id ≡ sel.new_fare_class_id
      → rows.segment.id ≡ sel.segment_id
      → verify sel (written inputs sel (quote sel (counted_fields rows)) db)
        ≡ ok (record {
          change = none;
          segment =
              record (result_of sel
                (quote sel (counted_fields rows))
                (new_change inputs sel (quote sel (counted_fields rows)))).segment {
                  created_at = 0;
                  updated_at = 0;
                };
          booking_reference = rows.reservation.booking_reference;
        })
  unfolding verify get_rebooking_result update_reservation_segment update_reservation_total
      join_result verified segment_of result_of quote new_change
  verify_written flight fare_class id =
      let v = quote sel (counted_fields rows) in
      let moved : ReservationSegment → ReservationSegment = λ row. record row {
        flight_id = v.new_flight_id;
        fare_class_id = v.new_fare_class_id;
        price_paid = v.new_price;
        status = SegmentStatus.changed;
        currency = v.currency;
        updated_at = inputs.now;
      } in
      let charged : Reservation → Reservation = λ row. record row {
        total_amount =
            row.total_amount +ℤ (v.fare_difference +ℤ v.change_fee -ℤ v.travel_credit_used);
        updated_at = inputs.now;
      } in
      ground (
        arith,
        find-update_self (is_segment sel.segment_id) moved db.reservation_segments (λ row. refl)
            rows.segment_found,
        find-update_self (is_reservation rows.segment.reservation_id) charged db.reservations
            (λ row. refl) rows.reservation_found,
      )

  written_confirmed :
      verify sel (written inputs sel (quote sel (counted_fields rows)) db)
        ≡ ok (record {
          change = none;
          segment =
              record (result_of sel
                (quote sel (counted_fields rows))
                (new_change inputs sel (quote sel (counted_fields rows)))).segment {
                  created_at = 0;
                  updated_at = 0;
                };
          booking_reference = rows.reservation.booking_reference;
        })
      → Confirms inputs sel db
          (result_of sel
            (quote sel (counted_fields rows))
            (new_change inputs sel (quote sel (counted_fields rows))))
          (written inputs sel (quote sel (counted_fields rows)) db)
  unfolding result_of quote verify_rebooking
  written_confirmed read = (rows.reservation, rows.reservation_found, refl, read)

-- A rebooking by statements that succeeded verifies: the segment that `verify_rebooking` reads back is
-- the one that was returned, but for its times, which both calls make up; the booking reference is that
-- of the segment's reservation, where the execution returns an empty one.
pub sql_verify-execute :
    (inputs : Inputs) (now : ℕ) (sel : Selection) (db db' : Database) {r : RebookingResult}
    → execute_rebooking (some (sql inputs)) now sel db ≡ (ok r, db')
    → (reservation : Reservation) × (find (is_reservation r.segment.reservation_id) db.reservations
        ≡ some reservation)
      × (r.booking_reference ≡ "")
      × (verify_rebooking (some (sql inputs)) sel db'
          ≡ ok (record {
            change = none;
            segment = record r.segment { created_at = 0; updated_at = 0 };
            booking_reference = reservation.booking_reference;
          }))
unfolding execute_rebooking verify_rebooking
sql_verify-execute inputs now sel db db' {r} h =
    let e = execute_inv inputs (validate_at now) sel db db' h in
    let start : Session = record { db = db; locks = [] } in
    let (rows, same, _, _) = snapshot_inv sel start e.seen in
    let (priced, allowed) = validate-quote sel e.snap e.credit now e.valid in
    let quoted : e.v ≡ quote sel (counted_fields rows) = priced ∙ ap (quote sel) same in
    let allowed' = subst (λ s. IsAllowed sel s e.credit now) same allowed in
    let v = quote sel (counted_fields rows) in
    let result = λ (w : Validation). result_of sel w (new_change inputs sel w) in
    let returned : r ≡ result v = e.returned ∙ ap result quoted in
    let final : db' ≡ written inputs sel v db =
      e.after ∙ ap (λ w. written inputs sel w db) quoted in
    let read =
      verify_written inputs sel db rows allowed'.bookable.flight_selected
        allowed'.bookable.fare_selected
        (find_segment_id sel.segment_id db.reservation_segments rows.segment_found) in
    let confirmed : Confirms inputs sel db (result v) (written inputs sel v db) =
      written_confirmed inputs sel db rows read in
    subst (λ x. Confirms inputs sel db x db') (sym returned)
      (subst (λ d. Confirms inputs sel db (result v) d) (sym final) confirmed)
