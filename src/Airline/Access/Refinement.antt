-- ===== src/Airline/Access/Refinement.antt =====
-- Whichever data access is chosen, a rebooking is the abstract operation.
use agents_at_scale.Prelude.{ℕ, String, ◌≡◌, sym, ap, subst, ◌∙◌, some, find, Bool-cases, inl, inr}
use agents_at_scale.Prelude.Eq.{◌==◌, string_eq}
use agents_at_scale.Airline.Errors.{Result, ok, >>=-eq-ok}
use agents_at_scale.Airline.Models.{FlightFare}
use agents_at_scale.Airline.Schemas.{Selection, Validation, RebookingResult}
use agents_at_scale.Airline.Database.{Database}
use agents_at_scale.Airline.Validation.{quote}
use agents_at_scale.Airline.Validation.Decision.{IsAllowed, validate-quote}
use agents_at_scale.Airline.Service.{
  RebookingRepository, orm, validate_rebooking, execute_rebooking,
}
use agents_at_scale.Airline.Rebooking
use agents_at_scale.Airline.Snapshot.{is_fare, get_snapshot}
use agents_at_scale.Airline.Rebooking.Seats.{DistinctIds}
use agents_at_scale.Airline.Rebooking.Reading.{get_snapshot_inv, fields_of}
use agents_at_scale.Airline.Rebooking.Success.{execute_rebooking_succeeds}
use agents_at_scale.Airline.Rebooking.Refinement.{orm_refines}
use agents_at_scale.Airline.Sql.Rebooking as Sql
use agents_at_scale.Airline.Sql.Rebooking.{sql}
use agents_at_scale.Airline.Sql.Agreement.{IsSound}
use agents_at_scale.Airline.Sql.Refinement.{sql_refines, sql_total}
use agents_at_scale.Airline.View.{view, rebook}
use agents_at_scale.Airline.Access.{rebookings}

-- The schema's demands on ids and references.
pub record MeetsSchema (db : Database) : Type 0 where
  pub sound : IsSound db
  pub distinct_fares : DistinctIds db.flight_fares

module _ (now : ℕ) (sel : Selection) (db : Database) (v : Validation) where
  -- A repository that carries the validated change out.
  abbrev Carries : RebookingRepository → Type 0
  Carries repository =
      (r : RebookingResult) × (db' : Database) × (execute_rebooking (some repository) now sel db
        ≡ (ok r, db'))
      × (view db' ≡ rebook sel v (view db))

  orm-Carries :
      (inputs : Rebooking.Inputs) {old_fare : FlightFare}
      → DistinctIds db.flight_fares
      → find (is_fare v.old_flight_id v.old_fare_class_id) db.flight_fares ≡ some old_fare
      → validate_rebooking (some (orm inputs)) now sel db ≡ ok v
      → Carries (orm inputs)
  unfolding validate_rebooking quote
  orm-Carries inputs distinct old valid =
      let ((snap, credit), read, checked) = >>=-eq-ok (get_snapshot sel db) _ valid in
      let (rows, same, seen) = get_snapshot_inv sel db read in
      let (priced, allowed) = validate-quote sel snap credit now checked in
      let quoted : v ≡ quote sel (fields_of rows) = priced ∙ ap (quote sel) same in
      let allowed' = subst (λ s. IsAllowed sel s credit now) same allowed in
      let old' =
        ap (λ (w : Validation). find (is_fare w.old_flight_id w.old_fare_class_id) db.flight_fares)
          (sym quoted)
        ∙ old in
      let (r, db', done) =
        execute_rebooking_succeeds inputs now sel db rows credit seen allowed' old' in
      let (w, again, shown) = orm_refines inputs now sel db db' distinct done in
      let both : ◌≡◌ {A = Result Validation} (ok w) (ok v) = sym again ∙ valid in
      let one : w ≡ v = cc both in
      (r, db', done, subst (λ x. view db' ≡ rebook sel x (view db)) one shown)

  sql-Carries :
      (inputs : Sql.Inputs)
      → IsSound db
      → validate_rebooking (some (sql inputs)) now sel db ≡ ok v
      → Carries (sql inputs)
  sql-Carries inputs sound valid =
      let (r, db', done) = sql_total inputs now sel db v valid in
      let (w, again, shown) = sql_refines inputs now sel db db' sound done in
      let both : ◌≡◌ {A = Result Validation} (ok w) (ok v) = sym again ∙ valid in
      let one : w ≡ v = cc both in
      (r, db', done, subst (λ x. view db' ≡ rebook sel x (view db)) one shown)

-- Whatever the data access, in a database that meets the schema: if the service validates a selection
-- and the fare that it gives up is on file, then its execution succeeds, and but for the order of the
-- rows, the times of the writes and the id of the change it leaves what the abstract operation gives:
-- the seats pass from one fare to the other, the segment, the total of the reservation and the credit
-- change as validated, the change is logged, and nothing else differs.
pub execute_rebooking_refines :
    (data_access : String) (orm_inputs : Rebooking.Inputs) (sql_inputs : Sql.Inputs) (now : ℕ)
    (sel : Selection) (db : Database) (v : Validation) {old_fare : FlightFare}
    → MeetsSchema db
    → find (is_fare v.old_flight_id v.old_fare_class_id) db.flight_fares ≡ some old_fare
    → validate_rebooking (some (rebookings data_access orm_inputs sql_inputs)) now sel db ≡ ok v
    → (r : RebookingResult) × (db' : Database) × (execute_rebooking
          (some (rebookings data_access orm_inputs sql_inputs))
          now
          sel
          db
        ≡ (ok r, db'))
      × (view db' ≡ rebook sel v (view db))
unfolding rebookings
execute_rebooking_refines data_access orm_inputs sql_inputs now sel db v schema old valid =
    elim (Bool-cases (data_access == "asyncpg")) [
      | inl e ↦ rw e (sql-Carries now sel db v sql_inputs schema.sound (rw e at valid))
      | inr e ↦ rw e (orm-Carries now sel db v orm_inputs schema.distinct_fares old (rw e at valid))
    ]
