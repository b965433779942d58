-- ===== src/Airline/Sql/Agreement.antt =====
-- Both data accesses hand the same rows to the validation.
use agents_at_scale.Prelude.{
  ℕ, ◌≡◌, ◌≢◌, ◌↔◌, refl, sym, ap, subst, ◌∙◌, true, ◌&&◌, Option, none, some, List, [], ◌∷◌, arith,
  All, find, find-All, find-some, suc, select, length, nat_beq_iff, Bool-cases, inl, inr,
}
use agents_at_scale.Prelude.Eq.{◌==◌, nat_eq}
use agents_at_scale.Prelude.Int.{ℤ, pos}
use agents_at_scale.Airline.Errors.{Result, ok, err, >>=-eq-ok}
use agents_at_scale.Airline.Models.{ReservationPassenger, TravelCredit}
use agents_at_scale.Airline.Schemas.{Selection, Snapshot, Validation}
use agents_at_scale.Airline.Database.{Database, Session, atomically_ok}
use agents_at_scale.Airline.Validation.Rules.{CreditFits}
use agents_at_scale.Airline.Validation.Decision.{validate-quote}
use agents_at_scale.Airline.Service.{orm, validate_rebooking}
use agents_at_scale.Airline.Rebooking.{Inputs}
use agents_at_scale.Airline.Snapshot.{get_snapshot, is_known, is_credit, passenger_count}
use agents_at_scale.Airline.Rebooking.Reading.{
  Rows, fields_of, CreditSeen, get_snapshot_inv, get_snapshot_rows,
}
use agents_at_scale.Airline.Sql.Queries.{count_passengers, get_travel_credit}
use agents_at_scale.Airline.Sql.Rebooking as Sql
use agents_at_scale.Airline.Sql.Rebooking.{sql, snapshot}
use agents_at_scale.Airline.Sql.Reading.{OwnCredit, counted_fields, snapshot_inv, snapshot_rows}

abbrev pub DistinctCredits : List TravelCredit → Type 0
DistinctCredits [] = Unit
DistinctCredits (credit ∷ rows) = All (λ other. other.id ≢ credit.id) rows × DistinctCredits rows

-- What the schema demands: passengers exist, and credits have ids of their own.
pub record IsSound (db : Database) : Type 0 where
  pub known : All (λ row. is_known db row ≡ true) db.reservation_passengers
  pub distinct : DistinctCredits db.travel_credits

select_known :
    (reservation_id : ℕ) (db : Database) (rows : List ReservationPassenger)
    → All (λ row. is_known db row ≡ true) rows
    → length (select (λ row. row.reservation_id == reservation_id) rows)
      ≡ length (select (λ row. row.reservation_id == reservation_id && is_known db row) rows)
select_known reservation_id db [] h = refl
select_known reservation_id db (row ∷ rows) h =
    elim (Bool-cases (row.reservation_id == reservation_id)) [
      | inl e ↦ rw (e, h.0) (ap (λ n. suc n) (select_known reservation_id db rows h.1))
      | inr e ↦ rw e (select_known reservation_id db rows h.1)
    ]

counted_known :
    (reservation_id : ℕ) (db : Database)
    → IsSound db
    → count_passengers reservation_id db ≡ passenger_count db reservation_id
unfolding count_passengers passenger_count
counted_known reservation_id db sound =
    ap pos (select_known reservation_id db db.reservation_passengers sound.known)

own_of_seen :
    (credit_id customer_id : ℕ) (rows : List TravelCredit) {c : TravelCredit}
    → find (is_credit credit_id) rows ≡ some c
    → c.customer_id ≡ customer_id
    → find (λ row. is_credit credit_id row && row.customer_id == customer_id) rows ≡ some c
own_of_seen credit_id customer_id [] h own = cc
own_of_seen credit_id customer_id (row ∷ rows) {c} h own =
    elim (Bool-cases (is_credit credit_id row)) [
      | inr e ↦ rw e (own_of_seen credit_id customer_id rows (rw e at h) own)
      | inl e ↦
          let this : ◌≡◌ {A = Option TravelCredit} (some row) (some c) = rw e at h in
          let same : row ≡ c = cc this in
          let mine : (row.customer_id == customer_id) ≡ true =
            (nat_beq_iff row.customer_id customer_id).1 (ap (λ x. x.customer_id) same ∙ own) in
          rw (e, mine) this
    ]

seen_of_own :
    (credit_id customer_id : ℕ) (rows : List TravelCredit) {c : TravelCredit}
    → DistinctCredits rows
    → find (λ row. is_credit credit_id row && row.customer_id == customer_id) rows ≡ some c
    → (find (is_credit credit_id) rows ≡ some c) × (c.customer_id ≡ customer_id)
seen_of_own credit_id customer_id [] d h = absurd (cc)
seen_of_own credit_id customer_id (row ∷ rows) {c} d h =
    let both = λ (x : TravelCredit). is_credit credit_id x && x.customer_id == customer_id in
    elim (Bool-cases (is_credit credit_id row)) [
      | inr e ↦ rw e (seen_of_own credit_id customer_id rows d.1 (rw e at h))
      | inl e ↦ elim (Bool-cases (row.customer_id == customer_id)) [
        | inl own ↦ ground arith
        | inr other ↦
            let rest : find both rows ≡ some c = rw (e, other) at h in
            let id : is_credit credit_id c ≡ true = ground (arith, find-some both rows rest) in
            let apart = find-All (λ x. x.id ≢ row.id) both rows d.0 rest in absurd (ground arith)
      ]
    ]

owned :
    (credit_id : Option ℕ) (amount : ℤ) (snap : Snapshot) (now : ℕ) (db : Database)
    (credit : Option TravelCredit)
    → CreditFits credit_id amount snap now credit
    → CreditSeen credit_id db credit
    → OwnCredit credit_id snap.customer_id db credit
unfolding get_travel_credit
owned none amount snap now db credit fits seen = seen
owned (some credit_id) amount snap now db none fits seen = seen
owned (some credit_id) amount snap now db (some c) fits seen =
    own_of_seen credit_id snap.customer_id db.travel_credits seen fits.owned

module _ (sel : Selection) (db : Database) (rows : Rows sel db) where
  counted_fields_sound : IsSound db → counted_fields rows ≡ fields_of rows
  counted_fields_sound sound =
      ap (λ n. record (fields_of rows) { passenger_count = n })
        (counted_known rows.segment.reservation_id db sound)

pub CreditSeen-own :
    (credit_id : Option ℕ) (customer_id : ℕ) (db : Database) (credit : Option TravelCredit)
    → IsSound db
    → OwnCredit credit_id customer_id db credit
    → CreditSeen credit_id db credit
unfolding get_travel_credit
CreditSeen-own none customer_id db credit sound own = own
CreditSeen-own (some credit_id) customer_id db none sound own = own
CreditSeen-own (some credit_id) customer_id db (some c) sound own =
    (seen_of_own credit_id customer_id db.travel_credits sound.distinct own).0

pub get_snapshot_own :
    {sel : Selection} {db : Database} (rows : Rows sel db) (credit : Option TravelCredit)
    → OwnCredit sel.travel_credit_id rows.reservation.customer_id db credit
    → Sql.get_snapshot sel db ≡ ok (counted_fields rows, credit)
unfolding Sql.get_snapshot
get_snapshot_own {sel} {db} rows credit own =
    let (t, again, _) = snapshot_rows (record { db = db; locks = [] }) rows credit own in
    ap (λ (p : Result (Snapshot × Option TravelCredit) × Database). p.0)
      (atomically_ok (snapshot sel) db again)

pub read_inv :
    (sel : Selection) (db : Database) {seen : Snapshot × Option TravelCredit}
    → Sql.get_snapshot sel db ≡ ok seen
    → (t : Session) × (snapshot sel (record { db = db; locks = [] }) ≡ ok (seen, t))
unfolding Sql.get_snapshot
read_inv sel db {seen} h = go (snapshot sel (record { db = db; locks = [] })) refl h
  where
    go :
        (r : Result ((Snapshot × Option TravelCredit) × Session))
        → snapshot sel (record { db = db; locks = [] }) ≡ r
        → (let x : Result (Snapshot × Option TravelCredit) × Database = elim r [
          | ok (a, s) ↦ (ok a, s.db)
          | err e ↦ (err e, db)
        ] in
            x.0)
          ≡ ok seen
        → (t : Session) × (snapshot sel (record { db = db; locks = [] }) ≡ ok (seen, t))
    go (ok (a, s)) e k = (s, ground arith)
    go (err x) e k = absurd (cc k)

module _ (orm_inputs : Inputs) (sql_inputs : Sql.Inputs) (now : ℕ) (sel : Selection) (db : Database)
    (v : Validation) where
  to_sql :
      IsSound db
      → validate_rebooking (some (orm orm_inputs)) now sel db ≡ ok v
      → validate_rebooking (some (sql sql_inputs)) now sel db ≡ ok v
  unfolding validate_rebooking
  to_sql sound h =
      let ((snap, credit), read, valid) = >>=-eq-ok (get_snapshot sel db) _ h in
      let (rows, same, seen) = get_snapshot_inv sel db read in
      let allowed = (validate-quote sel snap credit now valid).1 in
      let fits =
        subst (λ s. CreditFits sel.travel_credit_id sel.travel_credit_amount s now credit) same
          allowed.credit_fits in
      let own =
        owned sel.travel_credit_id sel.travel_credit_amount (fields_of rows) now db credit fits
          seen in
      let again = get_snapshot_own rows credit own in
      let shown : snap ≡ counted_fields rows =
        same ∙ sym (counted_fields_sound sel db rows sound) in
      rw again (rw (← shown) valid)

  to_orm :
      IsSound db
      → validate_rebooking (some (sql sql_inputs)) now sel db ≡ ok v
      → validate_rebooking (some (orm orm_inputs)) now sel db ≡ ok v
  unfolding validate_rebooking
  to_orm sound h =
      let ((snap, credit), read, valid) = >>=-eq-ok (Sql.get_snapshot sel db) _ h in
      let (t, done) = read_inv sel db read in
      let (rows, same, own, _) = snapshot_inv sel (record { db = db; locks = [] }) done in
      let seen = CreditSeen-own sel.travel_credit_id _ db credit sound own in
      let shown : snap ≡ fields_of rows = same ∙ counted_fields_sound sel db rows sound in
      rw (get_snapshot_rows rows credit seen) (rw (← shown) valid)

  -- In a database that meets the schema, the two data accesses accept the same selections, and return
  -- the same validation.
  pub validate_rebooking-agree :
      IsSound db
      → (validate_rebooking (some (orm orm_inputs)) now sel db ≡ ok v)
        ↔ (validate_rebooking (some (sql sql_inputs)) now sel db ≡ ok v)
  validate_rebooking-agree sound = (to_sql sound, to_orm sound)
