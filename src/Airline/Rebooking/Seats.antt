-- ===== src/Airline/Rebooking/Seats.antt =====
-- Seats: a change moves them between two fares, and never sells one that is not there.
use agents_at_scale.Prelude.{
  ℕ, ◌≡◌, refl, sym, ap, subst, ◌∙◌, ◌≢◌, Bool, Option, some, List, [], ◌∷◌, arith, All, find,
  find-All, update-All, update, Bool-cases, inl, inr, nat_beq, nat_beq_iff,
}
use agents_at_scale.Prelude.Eq.{◌==◌, nat_eq}
use agents_at_scale.Prelude.Int.{ℤ, pos, ◌+ℤ◌, ◌-ℤ◌, ◌≤ℤ◌, int_laws, parts_of_eq}
use agents_at_scale.Airline.Models.{FlightFare}
use agents_at_scale.Airline.Schemas.{Selection, Validation, RebookingResult}
use agents_at_scale.Airline.Database.{Database}
use agents_at_scale.Airline.Rebooking.{Inputs, Validate, set_seats, execute}
use agents_at_scale.Airline.Snapshot.{is_fare}
use agents_at_scale.Airline.Rebooking.Effects.{Moved, Applied}
use agents_at_scale.Airline.Rebooking.Execution.{execute_cases}
use agents_at_scale.Airline.Validation.{quote}
use agents_at_scale.Airline.Validation.Decision.{validate-quote}
use agents_at_scale.Airline.Service.{orm, validate_at, execute_rebooking}

-- The seats on sale in all fares together.
unfoldable pub total : List FlightFare → ℤ
total [] = pos 0
total (fare ∷ rows) = fare.available_seats +ℤ total rows

-- Ids are unique, as the primary key of `flight_fares` demands.
abbrev pub DistinctIds : List FlightFare → Type 0
DistinctIds [] = Unit
DistinctIds (fare ∷ rows) = All (λ other. other.id ≢ fare.id) rows × DistinctIds rows

abbrev pub AllSeated : List FlightFare → Type 0
AllSeated = All (λ fare. pos 0 ≤ℤ fare.available_seats)

abbrev pub seated : ℤ → FlightFare → FlightFare
seated n fare = record fare { available_seats = n }

abbrev pub write : ℕ → ℤ → List FlightFare → List FlightFare
write k n = update (λ row. row.id == k) (seated n)

write_absent :
    (k : ℕ) (n : ℤ) (rows : List FlightFare)
    → All (λ other. other.id ≢ k) rows
    → write k n rows ≡ rows
write_absent k n [] h = refl
write_absent k n (fare ∷ rows) h = ground (arith, write_absent k n rows h.1)

total-write :
    (p : FlightFare → Bool) (n : ℤ) (rows : List FlightFare) {fare : FlightFare}
    → DistinctIds rows
    → find p rows ≡ some fare
    → total (write fare.id n rows) +ℤ fare.available_seats ≡ total rows +ℤ n
unfolding total
total-write p n [] d h = absurd (cc)
total-write p n (x ∷ rows) {fare} d h = elim (Bool-cases (p x)) [
  | inl e ↦
      let k : ◌≡◌ {A = Option FlightFare} (some x) (some fare) = rw e at h in
      let same : x ≡ fare = cc k in
      subst (λ f. total (write f.id n (x ∷ rows)) +ℤ f.available_seats ≡ total (x ∷ rows) +ℤ n) same
        (rw ((nat_beq_iff x.id x.id).1 refl, write_absent x.id n rows d.0) (omega int_laws))
  | inr e ↦
      let rest : find p rows ≡ some fare = rw e at h in
      let other : fare.id ≢ x.id = find-All (λ o. o.id ≢ x.id) p rows d.0 rest in
      elim (Bool-cases (nat_beq x.id fare.id)) [
        | inl same ↦ absurd (other (sym ((nat_beq_iff x.id fare.id).0 same)))
        | inr ne ↦ rw ne (omega (int_laws, parts_of_eq (total-write p n rows d.1 rest)))
      ]
]

pub write-DistinctIds :
    (k : ℕ) (n : ℤ) (rows : List FlightFare) → DistinctIds rows → DistinctIds (write k n rows)
write-DistinctIds k n [] d = tt
write-DistinctIds k n (x ∷ rows) d =
    let rest =
      update-All (λ other. other.id ≢ x.id) (λ row. row.id == k) (seated n) rows (λ y h. h) d.0 in
    elim (Bool-cases (nat_beq x.id k)) [
      | inl e ↦ rw e (rest, write-DistinctIds k n rows d.1)
      | inr e ↦ rw e (rest, write-DistinctIds k n rows d.1)
    ]

module _ (sel : Selection) (v : Validation) {db db' : Database} (m : Moved sel v db db') where
  moved-total : DistinctIds db.flight_fares → total db'.flight_fares ≡ total db.flight_fares
  unfolding set_seats
  moved-total d =
      let left = m.target.available_seats -ℤ v.passenger_count in
      let taken = write m.target.id left db.flight_fares in
      let first =
        total-write (is_fare sel.new_flight_id sel.new_fare_class_id) left db.flight_fares d
          m.target_found in
      let second =
        total-write (is_fare v.old_flight_id v.old_fare_class_id)
          (m.old_fare.available_seats +ℤ v.passenger_count) taken
          (write-DistinctIds m.target.id left db.flight_fares d) m.old_found in
      rw m.after (omega (int_laws, parts_of_eq first, parts_of_eq second))

  moved-DistinctIds : DistinctIds db.flight_fares → DistinctIds db'.flight_fares
  unfolding set_seats
  moved-DistinctIds d =
      rw m.after
        (write-DistinctIds m.old_fare.id _ _ (write-DistinctIds m.target.id _ db.flight_fares d))

  moved-AllSeated :
      pos 0 ≤ℤ v.passenger_count → AllSeated db.flight_fares → AllSeated db'.flight_fares
  unfolding set_seats
  moved-AllSeated n a =
      let left = m.target.available_seats -ℤ v.passenger_count in
      let taken = write m.target.id left db.flight_fares in
      let room : pos 0 ≤ℤ left = omega (int_laws, m.room) in
      let still : AllSeated taken =
        update-All (λ f. pos 0 ≤ℤ f.available_seats) (λ row. row.id == m.target.id) (seated left)
          db.flight_fares (λ x h. room) a in
      let old =
        find-All (λ f. pos 0 ≤ℤ f.available_seats) (is_fare v.old_flight_id v.old_fare_class_id)
          taken still m.old_found in
      rw m.after (
        update-All (λ f. pos 0 ≤ℤ f.available_seats) (λ row. row.id == m.old_fare.id)
          (seated (m.old_fare.available_seats +ℤ v.passenger_count)) taken
          (λ x h. omega (int_laws, old)) still)

module _ (inputs : Inputs) (sel : Selection) (v : Validation) {db db' : Database}
    {r : RebookingResult} (a : Applied inputs sel v db db' r) where
  pub applied-fares : db'.flight_fares ≡ a.seats.flight_fares
  applied-fares =
      ap (λ (d : Database). d.flight_fares) a.after
      ∙ ap (λ (d : Database). d.flight_fares) a.segment_rebooked.after

-- In the ORM repository, committed or rolled back, and whatever the validation, a rebooking leaves the number
-- of seats on sale over all fares as it was, if the fares have ids of their own.
pub execute-total :
    (inputs : Inputs) (validate : Validate) (sel : Selection) (db : Database)
    → DistinctIds db.flight_fares
    → total (execute inputs validate sel db).1.flight_fares ≡ total db.flight_fares
execute-total inputs validate sel db d =
    execute_cases inputs validate sel (λ x. total x.flight_fares ≡ total db.flight_fares) db refl
      λ db' r e.
        ap total (applied-fares inputs sel e.v e.applied)
        ∙ moved-total sel e.v e.applied.seats_moved d

-- Fares with ids of their own, none of them oversold.
pub record IsStocked (db : Database) : Type 0 where
  pub distinct : DistinctIds db.flight_fares
  pub seated : AllSeated db.flight_fares

-- From a database whose fares have ids of their own and no negative seats, a rebooking, committed or
-- rolled back, leads to such a database: it oversells no fare.
pub execute_rebooking-IsStocked :
    (inputs : Inputs) (now : ℕ) (sel : Selection) (db : Database)
    → IsStocked db
    → IsStocked (execute_rebooking (some (orm inputs)) now sel db).1
unfolding execute_rebooking quote
execute_rebooking-IsStocked inputs now sel db h =
    execute_cases inputs (validate_at now) sel IsStocked db h λ db' r e.
      let (same, allowed) = validate-quote sel e.snap e.credit now e.valid in
      let count : e.v.passenger_count ≡ e.snap.passenger_count =
        ap (λ (w : Validation). w.passenger_count) same in
      let someone : pos 0 ≤ℤ e.v.passenger_count =
        rw count (omega (arith, allowed.bookable.someone_travels)) in
      record {
        distinct =
            rw (applied-fares inputs sel e.v e.applied)
              (moved-DistinctIds sel e.v e.applied.seats_moved h.distinct);
        seated =
            rw (applied-fares inputs sel e.v e.applied)
              (moved-AllSeated sel e.v e.applied.seats_moved someone h.seated);
      }
