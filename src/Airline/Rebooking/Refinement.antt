-- ===== src/Airline/Rebooking/Refinement.antt =====
-- A rebooking of the ORM is the abstract operation.
use mathlib.Core.List.{map-append}
use agents_at_scale.Prelude.{
  ℕ, ◌≡◌, ◌≢◌, refl, sym, ap, subst, ◌∙◌, Bool, Option, none, some, List, [], ◌∷◌, map, find,
  find-All, find-some, Bool-cases, inl, inr, nat_beq_iff,
}
use agents_at_scale.Prelude.Eq.{◌==◌, nat_eq}
use agents_at_scale.Prelude.Int.{ℤ, ◌+ℤ◌, ◌-ℤ◌}
use agents_at_scale.Prelude.Keyed.{
  adjust, lookup, lookup-update, lookup-update_key, pair_eq, pair_beq_iff,
}
use agents_at_scale.Airline.Errors.{ok}
use agents_at_scale.Airline.Models.{FlightFare, TravelCredit}
use agents_at_scale.Airline.Schemas.{Selection, Validation, RebookingResult}
use agents_at_scale.Airline.Database.{Database}
use agents_at_scale.Airline.Validation.{quote}
use agents_at_scale.Airline.Validation.Decision.{validate-iff-IsAllowed}
use agents_at_scale.Airline.Service.{orm, execute_rebooking, validate_rebooking}
use agents_at_scale.Airline.Rebooking.{Inputs, set_seats, flight_change}
use agents_at_scale.Airline.Rebooking.Effects.{Moved, spent_rows}
use agents_at_scale.Airline.Rebooking.Seats.{DistinctIds, write-DistinctIds, applied-fares}
use agents_at_scale.Airline.Rebooking.Reading.{fields_of, get_snapshot_rows}
use agents_at_scale.Airline.Rebooking.Tables.{Booking, execute_rebooking_inv}
use agents_at_scale.Airline.View.{
  view, rebook, Shows, view_of_Shows, fare_key, fare_shown, segment_key, segment_shown,
  reservation_key, reservation_shown, credit_key, credit_shown, change_shown, take_seats,
  give_seats, move_segment, charge, pay, pay_from,
}

-- Rows with one id are one row.
same_fare :
    (p q : FlightFare → Bool) (rows : List FlightFare) {x y : FlightFare}
    → DistinctIds rows
    → find p rows ≡ some x
    → find q rows ≡ some y
    → x.id ≡ y.id
    → x ≡ y
same_fare p q [] d ex ey same = absurd (cc)
same_fare p q (row ∷ rows) {x} {y} d ex ey same = elim (Bool-cases (p row)) [
  | inl hp ↦
      let px : ◌≡◌ {A = Option FlightFare} (some row) (some x) = rw hp at ex in
      let here : row ≡ x = cc px in
      elim (Bool-cases (q row)) [
        | inl hq ↦
            let py : ◌≡◌ {A = Option FlightFare} (some row) (some y) = rw hq at ey in
            let there : row ≡ y = cc py in sym here ∙ there
        | inr hq ↦
            let rest : find q rows ≡ some y = rw hq at ey in
            absurd
              (find-All (λ o. o.id ≢ row.id) q rows d.0 rest (sym same ∙ ap (λ f. f.id) (sym here)))
      ]
  | inr hp ↦
      let rest : find p rows ≡ some x = rw hp at ex in
      elim (Bool-cases (q row)) [
        | inl hq ↦
            let py : ◌≡◌ {A = Option FlightFare} (some row) (some y) = rw hq at ey in
            let there : row ≡ y = cc py in
            absurd
              (find-All (λ o. o.id ≢ row.id) p rows d.0 rest (same ∙ ap (λ f. f.id) (sym there)))
        | inr hq ↦ same_fare p q rows d.1 rest (rw hq at ey) same
      ]
]

abbrev on_key : ℕ × ℕ → FlightFare → Bool
on_key k row = fare_key row == k

set_seats_shown :
    (k : ℕ × ℕ) (n : ℤ) (g : FlightFare → FlightFare) (db : Database) {fare : FlightFare}
    → DistinctIds db.flight_fares
    → find (on_key k) db.flight_fares ≡ some fare
    → record fare { available_seats = n } ≡ g fare
    → (j : ℕ × ℕ)
    → lookup fare_key fare_shown (set_seats fare n db).flight_fares j
      ≡ adjust k g (lookup fare_key fare_shown db.flight_fares) j
unfolding set_seats
set_seats_shown k n g db {fare} distinct found agrees =
    lookup-update fare_key fare_shown (λ row. row.id == fare.id)
      (λ row. record row { available_seats = n }) g k db.flight_fares (λ row. refl)
      (λ j row e hit.
        let one =
          same_fare (on_key j) (on_key k) db.flight_fares distinct e found
            ((nat_beq_iff row.id fare.id).0 hit) in
        sym ((pair_beq_iff (fare_key row) j).0 (find-some (on_key j) db.flight_fares e))
        ∙ ap fare_key one
        ∙ (pair_beq_iff (fare_key fare) k).0 (find-some (on_key k) db.flight_fares found))
      (λ row e.
        let both : ◌≡◌ {A = Option FlightFare} (some fare) (some row) = sym found ∙ e in
        let one : fare ≡ row = cc both in
        (
          (nat_beq_iff row.id fare.id).1 (ap (λ f. f.id) (sym one)),
          subst (λ x. record x { available_seats = n } ≡ g x) one agrees,
        ))

fares_shown :
    (sel : Selection) (v : Validation) (db db' : Database)
    → DistinctIds db.flight_fares
    → v.new_flight_id ≡ sel.new_flight_id
    → v.new_fare_class_id ≡ sel.new_fare_class_id
    → Moved sel v db db'
    → (j : ℕ × ℕ)
    → lookup fare_key fare_shown db'.flight_fares j
      ≡ adjust
          (v.old_flight_id, v.old_fare_class_id)
          (give_seats v.passenger_count)
          (adjust
            (v.new_flight_id, v.new_fare_class_id)
            (take_seats v.passenger_count)
            (lookup fare_key fare_shown db.flight_fares))
          j
unfolding set_seats
fares_shown sel v db db' distinct flight fare_class m j =
    let old : ℕ × ℕ = (v.old_flight_id, v.old_fare_class_id) in
    let new : ℕ × ℕ = (v.new_flight_id, v.new_fare_class_id) in
    let left = m.target.available_seats -ℤ v.passenger_count in
    let taken = set_seats m.target left db in
    let found : find (on_key new) db.flight_fares ≡ some m.target =
      ap (λ (k : ℕ × ℕ). find (on_key k) db.flight_fares) (λ i. (flight i, fare_class i))
      ∙ m.target_found in
    ap (λ (d : Database). lookup fare_key fare_shown d.flight_fares j) m.after
    ∙ set_seats_shown old (m.old_fare.available_seats +ℤ v.passenger_count)
        (give_seats v.passenger_count) taken
        (write-DistinctIds m.target.id left db.flight_fares distinct) m.old_found refl j
    ∙ ap (λ shown. adjust old (give_seats v.passenger_count) shown j)
        (λ i k. set_seats_shown new left (take_seats v.passenger_count) db distinct found refl k i)

credits_shown :
    (credit_id : Option ℕ) (amount : ℤ) (rows : List TravelCredit) (j : ℕ)
    → lookup credit_key credit_shown (spent_rows credit_id amount rows) j
      ≡ pay_from credit_id amount (lookup credit_key credit_shown rows) j
credits_shown none amount rows j = refl
credits_shown (some credit_id) amount rows j =
    lookup-update_key credit_key credit_shown _ (pay amount) credit_id rows (λ row. refl)
      (λ row. refl) j

module _ (inputs : Inputs) (now : ℕ) (sel : Selection) (db db' : Database)
    {r : RebookingResult} where
  Booking-Shows :
      DistinctIds db.flight_fares
      → (b : Booking inputs now sel db db' r) → Shows sel (quote sel (fields_of b.rows)) db db'
  unfolding quote flight_change
  Booking-Shows distinct b =
      let v = quote sel (fields_of b.rows) in
      let a = b.applied in
      record {
        fares = λ j.
            ap (λ rows. lookup fare_key fare_shown rows j) (applied-fares inputs sel v a)
            ∙ fares_shown sel v db a.seats distinct b.allowed.bookable.flight_selected
                b.allowed.bookable.fare_selected a.seats_moved j;
        segments = λ j.
            ap (λ rows. lookup segment_key segment_shown rows j) b.tables.segments
            ∙ lookup-update_key segment_key segment_shown _ (move_segment v) sel.segment_id
                db.reservation_segments (λ row. refl) (λ row. refl) j;
        reservations = λ j.
            ap (λ rows. lookup reservation_key reservation_shown rows j) b.tables.reservations
            ∙ lookup-update_key reservation_key reservation_shown _
                (charge (v.fare_difference +ℤ v.change_fee -ℤ v.travel_credit_used))
                v.reservation_id db.reservations (λ row. refl) (λ row. refl) j;
        credits = λ j.
            ap (λ rows. lookup credit_key credit_shown rows j) b.tables.credits
            ∙ credits_shown sel.travel_credit_id sel.travel_credit_amount db.travel_credits j;
        changes =
            ap (map change_shown) b.tables.changes
            ∙ map-append change_shown db.flight_changes (flight_change inputs sel v ∷ []);
        customers = b.tables.customers;
        passengers = b.tables.passengers;
        reservation_passengers = b.tables.reservation_passengers;
        flights = b.tables.flights;
        fare_classes = b.tables.fare_classes;
      }

  -- A rebooking that succeeded did, in view, what the abstract operation does for the validation.
  pub orm_refines :
      DistinctIds db.flight_fares
      → execute_rebooking (some (orm inputs)) now sel db ≡ (ok r, db')
      → (v : Validation) × (validate_rebooking (some (orm inputs)) now sel db ≡ ok v)
        × (view db' ≡ rebook sel v (view db))
  unfolding validate_rebooking
  orm_refines distinct h =
      let b = execute_rebooking_inv inputs now sel db db' h in
      let v = quote sel (fields_of b.rows) in
      let valid = (validate-iff-IsAllowed sel (fields_of b.rows) b.credit now).1 b.allowed in
      (
        v,
        rw (get_snapshot_rows b.rows b.credit b.credit_seen) valid,
        view_of_Shows sel v db db' (Booking-Shows distinct b),
      )
