-- ===== src/Airline/Lookup/Found.antt =====
-- What `search_available` finds (langgraph-python/app/airline/repository/flight.py) is on file.
use agents_at_scale.Prelude.{
  ℕ, ◌≡◌, refl, sym, ap, subst, ◌∙◌, Bool, Option, none, some, List, [], ◌∷◌, ◌++◌, All, select,
  Bool-cases, inl, inr, find-some, nat_beq_iff,
}
use agents_at_scale.Prelude.Eq.{◌==◌, nat_eq}
use agents_at_scale.Airline.Models.{Flight, FareClass, FlightFare}
use agents_at_scale.Airline.Schemas.{SearchParams, AvailableFare, AvailableFlight}
use agents_at_scale.Airline.Database.{Database}
use agents_at_scale.Airline.Snapshot.{flight_of, fare_class_of}
use agents_at_scale.Airline.Lookup.{
  insert, order_by, Row, joined_row, joined, is_found, departs_before, fare_of, add_fare, grouped,
  search_available,
}
use agents_at_scale.Airline.Lookup.Credits.{In}

module _ {A : Type 0} (P : A → Type 0) where
  pub All-++ : (xs ys : List A) → All P xs → All P ys → All P (xs ++ ys)
  All-++ [] ys a b = b
  All-++ (x ∷ xs) ys a b = (a.0, All-++ xs ys a.1 b)

  All-select : (p : A → Bool) (xs : List A) → All P xs → All P (select p xs)
  All-select p [] a = tt
  All-select p (x ∷ xs) a = elim (Bool-cases (p x)) [
    | inl e ↦ rw e (a.0, All-select p xs a.1)
    | inr e ↦ rw e (All-select p xs a.1)
  ]

  All-insert :
      (before : A → A → Bool) (x : A) (xs : List A) → P x → All P xs → All P (insert before x xs)
  unfolding insert
  All-insert before x [] h a = (h, tt)
  All-insert before x (y ∷ ys) h a = elim (Bool-cases (before y x)) [
    | inl e ↦ rw e (a.0, All-insert before x ys h a.1)
    | inr e ↦ rw e (h, a)
  ]

  All-order_by : (before : A → A → Bool) (xs : List A) → All P xs → All P (order_by before xs)
  unfolding order_by
  All-order_by before [] a = tt
  All-order_by before (x ∷ xs) a =
      All-insert before x (order_by before xs) a.0 (All-order_by before xs a.1)

module _ {A : Type 0} (zs : List A) where
  All-In : (xs : List A) → ((x : A) → In x xs → In x zs) → All (λ x. In x zs) xs
  unfolding In
  All-In [] within = tt
  All-In (x ∷ xs) within = (within x (inl refl), All-In xs (λ y m. within y (inr m)))

module _ (db : Database) where
  -- A fare that is on file, with its flight and its class.
  pub record IsOnFile (flight : Flight) (fare : AvailableFare) : Type 0 where
    pub listed : In fare.flight_fare db.flight_fares
    pub of_flight : flight_of db fare.flight_fare.flight_id ≡ some flight
    pub of_class : fare_class_of db fare.flight_fare.fare_class_id ≡ some fare.fare_class

  unfoldable pub IsFound : AvailableFlight → Type 0
  IsFound result = All (IsOnFile result.flight) result.fares

  abbrev IsJoined : Row → Type 0
  IsJoined row = IsOnFile row.flight (fare_of row)

  joined-All :
      (fares : List FlightFare)
      → All (λ ff. In ff db.flight_fares) fares
      → All IsJoined (joined db fares)
  unfolding joined joined_row
  joined-All [] a = tt
  joined-All (ff ∷ fares) a =
      All-++ IsJoined
        (joined_row ff (flight_of db ff.flight_id) (fare_class_of db ff.fare_class_id))
        (joined db fares)
        (go (flight_of db ff.flight_id) refl (fare_class_of db ff.fare_class_id) refl)
        (joined-All fares a.1)
    where
      go :
          (f : Option Flight)
          → flight_of db ff.flight_id ≡ f
          → (c : Option FareClass) → fare_class_of db ff.fare_class_id ≡ c
          → All IsJoined (joined_row ff f c)
      go (some f) e (some c) k = (record { listed = a.0; of_flight = e; of_class = k }, tt)
      go (some f) e none k = tt
      go none e c k = tt

  -- Flights on file that have one id are one.
  same_flight :
      (f g : Flight) (i j : ℕ)
      → flight_of db i ≡ some f
      → flight_of db j ≡ some g
      → f.id ≡ g.id
      → f ≡ g
  unfolding flight_of
  same_flight f g i j e k same =
      let left = (nat_beq_iff f.id i).0 (find-some (λ row. row.id == i) db.flights e) in
      let right = (nat_beq_iff g.id j).0 (find-some (λ row. row.id == j) db.flights k) in
      let one : i ≡ j = sym left ∙ same ∙ right in
      let both : ◌≡◌ {A = Option Flight} (some f) (some g) = sym e ∙ ap (flight_of db) one ∙ k in
      cc both

  add_fare-All :
      (row : Row) (results : List AvailableFlight)
      → IsJoined row
      → All (λ r. IsFound r × ((i : ℕ) × (flight_of db i ≡ some r.flight))) results
      → All (λ r. IsFound r × ((i : ℕ) × (flight_of db i ≡ some r.flight))) (add_fare row results)
  unfolding add_fare IsFound
  add_fare-All row [] h a = (((h, tt), (row.flight_fare.flight_id, h.of_flight)), tt)
  add_fare-All row (result ∷ results) h a = elim (Bool-cases (result.flight.id == row.flight.id)) [
    | inl e ↦ rw e (
      (
        All-++ (IsOnFile result.flight) result.fares (fare_of row ∷ []) a.0.0 (
          subst (λ f. IsOnFile f (fare_of row))
              (sym (
                same_flight result.flight row.flight a.0.1.0 row.flight_fare.flight_id a.0.1.1
                  h.of_flight ((nat_beq_iff result.flight.id row.flight.id).0 e)))
              h,
          tt,
        ),
        a.0.1,
      ),
      a.1,
    )
    | inr e ↦ rw e (a.0, add_fare-All row results h a.1)
  ]

  abbrev Kept : AvailableFlight → Type 0
  Kept r = IsFound r × ((i : ℕ) × (flight_of db i ≡ some r.flight))

  grouped-All :
      (results : List AvailableFlight) (rows : List Row)
      → All Kept results
      → All IsJoined rows
      → All Kept (grouped results rows)
  unfolding grouped
  grouped-All results [] kept a = kept
  grouped-All results (row ∷ rows) kept a =
      grouped-All (add_fare row results) rows (add_fare-All row results a.0 kept) a.1

  first_of_each : (rs : List AvailableFlight) → All Kept rs → All IsFound rs
  first_of_each [] a = tt
  first_of_each (r ∷ rs) a = (a.0.0, first_of_each rs a.1)

  pub search_available-All : (params : SearchParams) → All IsFound (search_available params db)
  unfolding search_available
  search_available-All params =
      let rows = joined-All db.flight_fares (All-In db.flight_fares db.flight_fares (λ x m. m)) in
      first_of_each (search_available params db) (
        grouped-All []
          (order_by departs_before (select (is_found params) (joined db db.flight_fares))) tt
          (All-order_by IsJoined departs_before _ (All-select IsJoined (is_found params) _ rows)))
