-- ===== src/Airline/Sql/Totals.antt =====
-- The seats on sale in all, under the statements (langgraph-python/app/airline/repository/sql/queries.py).
use agents_at_scale.Prelude.{
  ℕ, ◌≡◌, ◌≢◌, refl, sym, ap, subst, ◌∙◌, Bool, true, ◌&&◌, Option, none, some, List, [], ◌∷◌,
  arith, All, find, find-some, update, update-All, Bool-cases, inl, inr,
}
use agents_at_scale.Prelude.Eq.{◌==◌, nat_eq}
use agents_at_scale.Prelude.Int.{ℤ, ◌+ℤ◌, ◌-ℤ◌, ◌≤ℤ◌, leb_ℤ, int_laws, parts_of_eq}
use agents_at_scale.Prelude.Keyed.{pair_eq, pair_beq_iff}
use agents_at_scale.Airline.Models.{FlightFare}
use agents_at_scale.Airline.View.{fare_key}
use agents_at_scale.Airline.Sql.Queries.{decrement_flight_fare_seats, increment_flight_fare_seats}
use agents_at_scale.Airline.Rebooking.Seats.{total}

-- A flight has one fare for each fare class, as UNIQUE (flight_id, fare_class_id) demands.
abbrev pub DistinctKeys : List FlightFare → Type 0
DistinctKeys [] = Unit
DistinctKeys (fare ∷ rows) = All (λ other. fare_key other ≢ fare_key fare) rows × DistinctKeys rows

abbrev pub on_key : ℕ × ℕ → FlightFare → Bool
on_key k row = fare_key row == k

-- A write to other keys leaves the rows.
pub update_absent :
    (p : FlightFare → Bool) (f : FlightFare → FlightFare) (k : ℕ × ℕ) (rows : List FlightFare)
    → ((row : FlightFare) → p row ≡ true → fare_key row ≡ k)
    → All (λ other. fare_key other ≢ k) rows
    → update p f rows ≡ rows
update_absent p f k [] only h = refl
update_absent p f k (row ∷ rows) only h = elim (Bool-cases (p row)) [
  | inl e ↦ absurd (h.0 (only row e))
  | inr e ↦ rw e (ap (λ rest. row ∷ rest) (update_absent p f k rows only h.1))
]

pub unfound :
    (k : ℕ × ℕ) (rows : List FlightFare)
    → find (on_key k) rows ≡ none
    → All (λ other. fare_key other ≢ k) rows
unfound k [] h = tt
unfound k (row ∷ rows) h = elim (Bool-cases (on_key k row)) [
  | inl e ↦ let found : ◌≡◌ {A = Option FlightFare} (some row) none = rw e at h in absurd (cc)
  | inr e ↦
      (λ same. absurd (cc (e, (pair_beq_iff (fare_key row) k).1 same)), unfound k rows (rw e at h))
]

pub total-update :
    (p : FlightFare → Bool) (f : FlightFare → FlightFare) (k : ℕ × ℕ) (rows : List FlightFare)
    {fare : FlightFare}
    → DistinctKeys rows
    → ((row : FlightFare) → p row ≡ true → fare_key row ≡ k)
    → find (on_key k) rows ≡ some fare
    → p fare ≡ true
    → total (update p f rows) +ℤ fare.available_seats ≡ total rows +ℤ (f fare).available_seats
unfolding total
total-update p f k [] d only h hit = absurd (cc)
total-update p f k (row ∷ rows) {fare} d only h hit = elim (Bool-cases (on_key k row)) [
  | inl e ↦
      let here : ◌≡◌ {A = Option FlightFare} (some row) (some fare) = rw e at h in
      let same : row ≡ fare = cc here in
      let key : fare_key row ≡ k = (pair_beq_iff (fare_key row) k).0 e in
      let others = subst (λ l. All (λ other. fare_key other ≢ l) rows) key d.0 in
      subst
        (λ x.
          total (update p f (row ∷ rows)) +ℤ x.available_seats
          ≡ total (row ∷ rows) +ℤ (f x).available_seats)
        same (rw (ap p same ∙ hit, update_absent p f k rows only others) (omega int_laws))
  | inr e ↦
      let rest : find (on_key k) rows ≡ some fare = rw e at h in
      elim (Bool-cases (p row)) [
        | inl wrong ↦ absurd (cc (e, (pair_beq_iff (fare_key row) k).1 (only row wrong)))
        | inr miss ↦
            rw miss (omega (int_laws, parts_of_eq (total-update p f k rows d.1 only rest hit)))
      ]
]

pub update-DistinctKeys :
    (p : FlightFare → Bool) (f : FlightFare → FlightFare) (rows : List FlightFare)
    → ((row : FlightFare) → fare_key (f row) ≡ fare_key row)
    → DistinctKeys rows
    → DistinctKeys (update p f rows)
update-DistinctKeys p f [] keep d = tt
update-DistinctKeys p f (row ∷ rows) keep d =
    let rest =
      update-All (λ other. fare_key other ≢ fare_key row) p f rows
        (λ y h. λ e. h (sym (keep y) ∙ e)) d.0 in
    elim (Bool-cases (p row)) [
      | inl e ↦ rw (e, keep row) (rest, update-DistinctKeys p f rows keep d.1)
      | inr e ↦ rw e (rest, update-DistinctKeys p f rows keep d.1)
    ]

abbrev pub taken : ℤ → FlightFare → FlightFare
taken n row = record row { available_seats = row.available_seats -ℤ n }

abbrev pub given : ℤ → FlightFare → FlightFare
given n row = record row { available_seats = row.available_seats +ℤ n }

pub key_of_hit : (k : ℕ × ℕ) (row : FlightFare) → on_key k row ≡ true → fare_key row ≡ k
key_of_hit k row hit = (pair_beq_iff (fare_key row) k).0 hit

pub decremented-total :
    (n : ℤ) (k : ℕ × ℕ) (rows : List FlightFare) {fare : FlightFare}
    → DistinctKeys rows
    → find (on_key k) rows ≡ some fare
    → n ≤ℤ fare.available_seats
    → total (decrement_flight_fare_seats n k.0 k.1 rows) +ℤ n ≡ total rows
unfolding decrement_flight_fare_seats
decremented-total n k rows {fare} d found room =
    let p : FlightFare → Bool = λ row. on_key k row && leb_ℤ n row.available_seats in
    let hit : p fare ≡ true = ground (arith, find-some (on_key k) rows found) in
    let moved =
      total-update p (taken n) k rows d (λ row h. key_of_hit k row (ground arith)) found hit in
    omega (int_laws, parts_of_eq moved)

pub incremented-total :
    (n : ℤ) (k : ℕ × ℕ) (rows : List FlightFare) {fare : FlightFare}
    → DistinctKeys rows
    → find (on_key k) rows ≡ some fare
    → total (increment_flight_fare_seats n k.0 k.1 rows) ≡ total rows +ℤ n
unfolding increment_flight_fare_seats
incremented-total n k rows {fare} d found =
    let moved =
      total-update (on_key k) (given n) k rows d (λ row h. key_of_hit k row h) found
        (find-some (on_key k) rows found) in
    omega (int_laws, parts_of_eq moved)

pub decremented-DistinctKeys :
    (n : ℤ) (k : ℕ × ℕ) (rows : List FlightFare)
    → DistinctKeys rows
    → DistinctKeys (decrement_flight_fare_seats n k.0 k.1 rows)
unfolding decrement_flight_fare_seats
decremented-DistinctKeys n k rows d =
    update-DistinctKeys (λ row. on_key k row && leb_ℤ n row.available_seats) (taken n) rows
      (λ row. refl) d
