-- ===== src/Airline/Access/Failure.antt =====
-- Whichever data access is chosen, what the validation refuses is not executed.
use agents_at_scale.Prelude.{
  arith, ℕ, String, ◌≡◌, refl, ap, ◌∙◌, Option, some, [], Bool-cases, inl, inr,
}
use agents_at_scale.Prelude.Eq.{◌==◌, string_eq}
use agents_at_scale.Airline.Errors.{Error, Result, ok, err, attribute_error, ◌>>=◌}
use agents_at_scale.Airline.Models.{TravelCredit}
use agents_at_scale.Airline.Schemas.{Selection, Snapshot, Validation, RebookingResult}
use agents_at_scale.Airline.Database.{Database, Session, lift, atomically_err}
use agents_at_scale.Airline.Validation.{validate_rebooking_selection}
use agents_at_scale.Airline.Service.{orm, validate_at, validate_rebooking, execute_rebooking}
use agents_at_scale.Airline.Rebooking
use agents_at_scale.Airline.Snapshot.{get_snapshot}
use agents_at_scale.Airline.Rebooking.Outcome.{execute_refused, execute_unread, bind-ok, bind-err}
use agents_at_scale.Airline.Sql.Rebooking as Sql
use agents_at_scale.Airline.Sql.Rebooking.{sql, snapshot, change_booking}
use agents_at_scale.Airline.Access.{rebookings}

-- The error of a validation that failed, as the error of an execution.
abbrev unchecked : Result Validation → Result RebookingResult
unchecked (ok v) = err attribute_error
unchecked (err x) = err x

abbrev seen_of :
    Result ((Snapshot × Option TravelCredit) × Session)
    → Database
    → Result (Snapshot × Option TravelCredit)
seen_of r db =
    let x : Result (Snapshot × Option TravelCredit) × Database = elim r [
      | ok (a, s) ↦ (ok a, s.db)
      | err e ↦ (err e, db)
    ] in
    x.0

lift_err : (r : Result Validation) (s : Session) {x : Error} → r ≡ err x → lift r s ≡ err x
lift_err r s h = ground arith

module _ (now : ℕ) (sel : Selection) (db : Database) {e : Error} where
  orm_fails :
      (inputs : Rebooking.Inputs)
      → validate_rebooking (some (orm inputs)) now sel db ≡ err e
      → execute_rebooking (some (orm inputs)) now sel db ≡ (err e, db)
  unfolding validate_rebooking execute_rebooking
  orm_fails inputs h = go (get_snapshot sel db) refl h
    where
      go :
          (r : Result (Snapshot × Option TravelCredit))
          → get_snapshot sel db ≡ r
          → (r >>= λ seen. validate_rebooking_selection sel seen.0 seen.1 now) ≡ err e
          → Rebooking.execute inputs (validate_at now) sel db ≡ (err e, db)
      go (ok (snap, credit)) read refused =
          execute_refused inputs (validate_at now) sel db read refused
      go (err x) read refused =
          execute_unread inputs (validate_at now) sel db read
          ∙ ap (λ (r : Result Validation). (unchecked r, db)) refused

  sql_fails :
      (inputs : Sql.Inputs)
      → validate_rebooking (some (sql inputs)) now sel db ≡ err e
      → execute_rebooking (some (sql inputs)) now sel db ≡ (err e, db)
  unfolding validate_rebooking execute_rebooking Sql.execute Sql.get_snapshot change_booking
  sql_fails inputs h = go (snapshot sel (record { db = db; locks = [] })) refl h
    where
      go :
          (r : Result ((Snapshot × Option TravelCredit) × Session))
          → snapshot sel (record { db = db; locks = [] }) ≡ r
          → (seen_of r db >>= λ seen. validate_rebooking_selection sel seen.0 seen.1 now) ≡ err e
          → Sql.execute inputs (validate_at now) sel db ≡ (err e, db)
      go (ok ((snap, credit), s)) read refused =
          atomically_err (change_booking inputs (validate_at now) sel) db (
            bind-ok (snapshot sel) _ (record { db = db; locks = [] }) read
            ∙ bind-err (lift (validate_at now sel snap credit)) _ s (lift_err _ s refused))
      go (err x) read refused =
          atomically_err (change_booking inputs (validate_at now) sel) db
            (bind-err (snapshot sel) _ (record { db = db; locks = [] }) read)
          ∙ ap (λ (r : Result Validation). (unchecked r, db)) refused

-- Whatever the data access: if the validation of a selection raises, so does its execution, with the
-- same error, and the database stays as it is.
pub execute_rebooking_fails :
    (data_access : String) (orm_inputs : Rebooking.Inputs) (sql_inputs : Sql.Inputs) (now : ℕ)
    (sel : Selection) (db : Database) {e : Error}
    → validate_rebooking (some (rebookings data_access orm_inputs sql_inputs)) now sel db ≡ err e
    → execute_rebooking (some (rebookings data_access orm_inputs sql_inputs)) now sel db
      ≡ (err e, db)
unfolding rebookings
execute_rebooking_fails data_access orm_inputs sql_inputs now sel db refused =
    elim (Bool-cases (data_access == "asyncpg")) [
      | inl a ↦ rw a (sql_fails now sel db sql_inputs (rw a at refused))
      | inr a ↦ rw a (orm_fails now sel db orm_inputs (rw a at refused))
    ]
