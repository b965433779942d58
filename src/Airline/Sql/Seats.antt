-- ===== src/Airline/Sql/Seats.antt =====
-- Seats under the statements, which do not look at the numbers of rows that they changed.
use mathlib.Core.Option
use agents_at_scale.Prelude.{
  ℕ, ◌≡◌, refl, sym, ap, subst, ◌∙◌, ◌⊎◌, ◌&&◌, Option, none, some, List, [], find, find-update,
  if◌then◌else◌, Option-cases, inl, inr,
}
use agents_at_scale.Prelude.Eq.{nat_eq}
use agents_at_scale.Prelude.Int.{ℤ, ◌+ℤ◌, ◌≤ℤ◌, leb_ℤ}
use agents_at_scale.Prelude.Keyed.{pair_eq}
use agents_at_scale.Airline.Models.{FlightFare, TravelCredit}
use agents_at_scale.Airline.Errors.{Result, ok}
use agents_at_scale.Airline.Schemas.{Selection, Snapshot, Validation, RebookingResult}
use agents_at_scale.Airline.Database.{Database, Session, atomically_ok}
use agents_at_scale.Airline.Validation.{quote}
use agents_at_scale.Airline.Validation.Decision.{IsAllowed, validate-quote}
use agents_at_scale.Airline.Service.{validate_at, validate_rebooking, execute_rebooking}
use agents_at_scale.Airline.Rebooking.Reading.{Rows}
use agents_at_scale.Airline.Snapshot.{is_fare}
use agents_at_scale.Airline.Sql.Rebooking.{Inputs, get_snapshot, snapshot, sql}
use agents_at_scale.Airline.Sql.Reading.{counted_fields, snapshot_inv}
use agents_at_scale.Airline.Sql.Refinement.{execute_inv, sql_total, target_found_again}
use agents_at_scale.Airline.Sql.Queries.{
  count_passengers, decrement_flight_fare_seats, increment_flight_fare_seats,
}
use agents_at_scale.Airline.Rebooking.Seats.{total}
use agents_at_scale.Airline.Sql.Totals.{
  DistinctKeys, on_key, update_absent, unfound, taken, given, key_of_hit, decremented-total,
  incremented-total, decremented-DistinctKeys,
}

-- What is found among the fares after seats were taken.
decremented_read :
    (n : ℤ) (k j : ℕ × ℕ) (rows : List FlightFare)
    → find (on_key j) (decrement_flight_fare_seats n k.0 k.1 rows)
      ≡ Option.map
          (λ row. if on_key k row && leb_ℤ n row.available_seats then taken n row else row)
          (find (on_key j) rows)
unfolding decrement_flight_fare_seats
decremented_read n k j rows =
    find-update (λ row. on_key k row && leb_ℤ n row.available_seats) (on_key j) (taken n) rows
      (λ row. refl)

decremented_unfound :
    (n : ℤ) (k j : ℕ × ℕ) (rows : List FlightFare)
    → find (on_key j) rows ≡ none
    → find (on_key j) (decrement_flight_fare_seats n k.0 k.1 rows) ≡ none
decremented_unfound n k j rows e = decremented_read n k j rows ∙ rw e refl

decremented_found :
    (n : ℤ) (k j : ℕ × ℕ) (rows : List FlightFare) {fare : FlightFare}
    → find (on_key j) rows ≡ some fare
    → (fare' : FlightFare) × (find (on_key j) (decrement_flight_fare_seats n k.0 k.1 rows)
        ≡ some fare')
decremented_found n k j rows {fare} e = (
  if on_key k fare && leb_ℤ n fare.available_seats then taken n fare else fare,
  decremented_read n k j rows ∙ rw e refl,
)

increment_absent :
    (n : ℤ) (k : ℕ × ℕ) (rows : List FlightFare)
    → find (on_key k) rows ≡ none
    → increment_flight_fare_seats n k.0 k.1 rows ≡ rows
unfolding increment_flight_fare_seats
increment_absent n k rows e =
    update_absent (on_key k) (given n) k rows (λ row h. key_of_hit k row h) (unfound k rows e)

-- The seats in all, by whether the fare that gets its seats back is there.
abbrev Kept : ℤ → ℕ × ℕ → List FlightFare → List FlightFare → Type 0
Kept n old rows rows' =
    ((fare : FlightFare) × (find (on_key old) rows ≡ some fare) × (total rows' ≡ total rows))
    ⊎ ((find (on_key old) rows ≡ none) × (total rows' +ℤ n ≡ total rows))

moved-Kept :
    (n : ℤ) (old new : ℕ × ℕ) (rows : List FlightFare) {fare : FlightFare}
    → DistinctKeys rows
    → find (on_key new) rows ≡ some fare
    → n ≤ℤ fare.available_seats
    → Kept n old rows
        (increment_flight_fare_seats n old.0 old.1 (decrement_flight_fare_seats n new.0 new.1 rows))
moved-Kept n old new rows d found room =
    let less = decremented-total n new rows d found room in
    let rest = decrement_flight_fare_seats n new.0 new.1 rows in
    let d' : DistinctKeys rest = decremented-DistinctKeys n new rows d in
    elim (Option-cases (find (on_key old) rows)) [
      | inl e ↦ inr (
        e,
        ap (λ t. t +ℤ n)
              (ap total (increment_absent n old rest (decremented_unfound n new old rows e)))
            ∙ less,
      )
      | inr (fare, e) ↦
          let (fare', e') = decremented_found n new old rows e in
          inl (fare, e, incremented-total n old rest d' e' ∙ less)
    ]

abbrev moved_fares : Validation → List FlightFare → List FlightFare
moved_fares v rows =
    increment_flight_fare_seats v.passenger_count v.old_flight_id v.old_fare_class_id
      (decrement_flight_fare_seats v.passenger_count v.new_flight_id v.new_fare_class_id rows)

quote-Kept :
    (sel : Selection) (db : Database) (rows : Rows sel db) (credit : Option TravelCredit) (now : ℕ)
    → IsAllowed sel (counted_fields rows) credit now
    → DistinctKeys db.flight_fares
    → Kept
        (quote sel (counted_fields rows)).passenger_count
        (
          (quote sel (counted_fields rows)).old_flight_id,
          (quote sel (counted_fields rows)).old_fare_class_id,
        )
        db.flight_fares
        (moved_fares (quote sel (counted_fields rows)) db.flight_fares)
unfolding quote
quote-Kept sel db rows credit now allowed distinct =
    moved-Kept (count_passengers rows.segment.reservation_id db)
      (rows.segment.flight_id, rows.segment.fare_class_id)
      (rows.target.flight_id, rows.target.fare_class_id) db.flight_fares distinct
      (target_found_again sel db rows credit now allowed) allowed.bookable.room

validated_once :
    (inputs : Inputs) (now : ℕ) (sel : Selection) (db : Database) {snap : Snapshot}
    {credit : Option TravelCredit} {t : Session} {v w : Validation}
    → snapshot sel (record { db = db; locks = [] }) ≡ ok ((snap, credit), t)
    → validate_at now sel snap credit ≡ ok v
    → validate_rebooking (some (sql inputs)) now sel db ≡ ok w
    → v ≡ w
unfolding validate_rebooking get_snapshot
validated_once inputs now sel db {snap} {credit} {t} {v} {w} seen valid again =
    let read : get_snapshot sel db ≡ ok (snap, credit) =
      ap (λ (p : Result (Snapshot × Option TravelCredit) × Database). p.0)
        (atomically_ok (snapshot sel) db seen) in
    let both : ◌≡◌ {A = Result Validation} (ok v) (ok w) = sym valid ∙ (rw read at again) in cc both

-- A rebooking that has succeeded, by whether the fare that it gave up was on file
executed-total :
    (inputs : Inputs) (now : ℕ) (sel : Selection) (db db' : Database) (v : Validation)
    {r : RebookingResult}
    → DistinctKeys db.flight_fares
    → validate_rebooking (some (sql inputs)) now sel db ≡ ok v
    → execute_rebooking (some (sql inputs)) now sel db ≡ (ok r, db')
    → ((old_fare : FlightFare) × (find (is_fare v.old_flight_id v.old_fare_class_id) db.flight_fares
          ≡ some old_fare)
        × (total db'.flight_fares ≡ total db.flight_fares))
      ⊎ ((find (is_fare v.old_flight_id v.old_fare_class_id) db.flight_fares ≡ none)
          × (total db'.flight_fares +ℤ v.passenger_count ≡ total db.flight_fares))
unfolding execute_rebooking
executed-total inputs now sel db db' v distinct valid h =
    let e = execute_inv inputs (validate_at now) sel db db' h in
    let start : Session = record { db = db; locks = [] } in
    let (rows, same, own, _) = snapshot_inv sel start e.seen in
    let (priced, allowed) = validate-quote sel e.snap e.credit now e.valid in
    let allowed' = subst (λ s. IsAllowed sel s e.credit now) same allowed in
    let one : e.v ≡ v = validated_once inputs now sel db e.seen e.valid valid in
    let quoted : v ≡ quote sel (counted_fields rows) = sym one ∙ priced ∙ ap (quote sel) same in
    let kept = quote-Kept sel db rows e.credit now allowed' distinct in
    let final : db'.flight_fares ≡ moved_fares v db.flight_fares =
      ap (λ (d : Database). d.flight_fares) e.after ∙ ap (λ w. moved_fares w db.flight_fares) one in
    subst
      (λ fares. Kept v.passenger_count (v.old_flight_id, v.old_fare_class_id) db.flight_fares fares)
      (sym final)
      (subst
        (λ w.
          Kept w.passenger_count (w.old_flight_id, w.old_fare_class_id) db.flight_fares
            (moved_fares w db.flight_fares))
        (sym quoted) kept)

-- Under the statements, in a database with one fare for each flight and fare class, the rebooking of a
-- validated change succeeds. If the fare that it gives up is on file, the number of seats on sale over all
-- fares is as it was. If that fare is not, it succeeds all the same, and the seats that it took are gone
-- from the total.
pub sql_execute-total :
    (inputs : Inputs) (now : ℕ) (sel : Selection) (db : Database) (v : Validation)
    → DistinctKeys db.flight_fares
    → validate_rebooking (some (sql inputs)) now sel db ≡ ok v
    → (r : RebookingResult) × (db' : Database) × (execute_rebooking (some (sql inputs)) now sel db
        ≡ (ok r, db'))
      × (((old_fare : FlightFare) × (find
                (is_fare v.old_flight_id v.old_fare_class_id)
                db.flight_fares
              ≡ some old_fare)
            × (total db'.flight_fares ≡ total db.flight_fares))
          ⊎ ((find (is_fare v.old_flight_id v.old_fare_class_id) db.flight_fares ≡ none)
              × (total db'.flight_fares +ℤ v.passenger_count ≡ total db.flight_fares)))
sql_execute-total inputs now sel db v distinct valid =
    let (r, db', done) = sql_total inputs now sel db v valid in
    (r, db', done, executed-total inputs now sel db db' v distinct valid done)
