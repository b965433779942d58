-- ===== src/Airline/Sql/Reservations.antt =====
-- Both data accesses read the same reservation, but for the order of its passengers and segments.
use mathlib.Core.List.{Perm}
use mathlib.Core.List.Perm
use agents_at_scale.Prelude.{
  ℕ, String, ◌≡◌, refl, sym, ap, subst, leb, ◌⊎◌, inl, inr, Bool, none, some, List, [], ◌∷◌, ◌++◌,
  All, find, find-All, select, map, Bool-cases, Option-cases,
}
use agents_at_scale.Prelude.Eq.{◌==◌, nat_eq, string_eq}
use agents_at_scale.Airline.Errors.{ok, err, reservation_not_found}
use agents_at_scale.Airline.Models.{
  Customer, Flight, FareClass, ReservationPassenger, Reservation, ReservationSegment,
}
use agents_at_scale.Airline.Schemas.{ReservationDetails}
use agents_at_scale.Airline.Database.{Database}
use agents_at_scale.Airline.Snapshot.{is_reservation, flight_of, fare_class_of}
use agents_at_scale.Airline.Lookup.{insert, order_by}
use agents_at_scale.Airline.Details
use agents_at_scale.Airline.Details.{
  reservation_with, customer_of, passengers_of, one_if, segments_of, segment_details, details_of,
  get_details,
}
use agents_at_scale.Airline.Sql.Details.{
  get_reservation_by_booking_reference, join_customer, get_reservation_customer, join_passengers,
  get_passengers_by_reservation, join_details, join_segments, get_segment_details_by_reservation,
  details_of_row, get_details_by_booking_reference,
}

-- An ORDER BY only reorders.
module _ {A : Type 0} (before : A → A → Bool) where
  insert-perm : (x : A) (xs : List A) → Perm (insert before x xs) (x ∷ xs)
  unfolding insert
  insert-perm x [] = Perm.refl (x ∷ [])
  insert-perm x (y ∷ ys) = elim (Bool-cases (before y x)) [
    | inl e ↦ rw e (Perm.trans (Perm.cons y (insert-perm x ys)) (Perm.swap x y ys))
    | inr e ↦ rw e (Perm.refl (x ∷ y ∷ ys))
  ]

  order_by-perm : (xs : List A) → Perm (order_by before xs) xs
  unfolding order_by
  order_by-perm [] = Perm.refl []
  order_by-perm (x ∷ xs) =
      Perm.trans (insert-perm x (order_by before xs)) (Perm.cons x (order_by-perm xs))

-- A segment's flight and fare class exist.
abbrev pub Linked : Database → ReservationSegment → Type 0
Linked db rs =
    (f : Flight) × (c : FareClass) × (flight_of db rs.flight_id ≡ some f)
    × (fare_class_of db rs.fare_class_id ≡ some c)

-- Segments lead to their flights and fare classes, reservations to their customers, and a reservation
-- is what its id finds.
pub record IsReferential (db : Database) : Type 0 where
  pub linked : All (Linked db) db.reservation_segments
  pub owned : All (λ r. (c : Customer) × (customer_of db r.customer_id ≡ some c)) db.reservations
  pub keyed : All (λ r. find (is_reservation r.id) db.reservations ≡ some r) db.reservations

select-All :
    {A : Type 0} (P : A → Type 0) (p : A → Bool) (xs : List A) → All P xs → All P (select p xs)
select-All P p [] h = tt
select-All P p (x ∷ xs) h = elim (Bool-cases (p x)) [
  | inl e ↦ rw e (h.0, select-All P p xs h.1)
  | inr e ↦ rw e (select-All P p xs h.1)
]

-- Nothing is dropped by the join, and the relationships lead to the same rows.
details_of-join :
    (db : Database) (rows : List ReservationSegment)
    → All (Linked db) rows
    → details_of db rows ≡ ok (map details_of_row (join_segments db rows))
unfolding details_of join_segments segment_details join_details
details_of-join db [] h = refl
details_of-join db (rs ∷ rows) h =
    let (f, c, ef, ec) = h.0 in rw (ef, ec, details_of-join db rows h.1) refl

passengers-join :
    (db : Database) (rows : List ReservationPassenger)
    → Details.join_passengers db rows ≡ join_passengers db rows
unfolding Details.join_passengers join_passengers
passengers-join db [] = refl
passengers-join db (row ∷ rows) =
    ap (λ rest. one_if (find (λ p. p.id == row.passenger_id) db.passengers) ++ rest)
      (passengers-join db rows)

-- What two readings of a reservation have in common.
pub record SameReservation (d d' : ReservationDetails) : Type 0 where
  pub reservation : d'.reservation ≡ d.reservation
  pub customer : d'.customer ≡ d.customer
  pub passengers : Perm d'.passengers d.passengers
  pub segments : Perm d'.segments d.segments

details_of-linked :
    (db : Database) (reservation_id : ℕ)
    → IsReferential db
    → details_of db (segments_of db reservation_id)
      ≡ ok (map details_of_row (join_segments db (segments_of db reservation_id)))
unfolding segments_of
details_of-linked db reservation_id h = details_of-join db _ (
    select-All (Linked db) (λ row. row.reservation_id == reservation_id) db.reservation_segments
      h.linked)

unknown :
    (booking_reference : String) (db : Database)
    → reservation_with booking_reference db ≡ none
    → (get_details booking_reference db ≡ err (reservation_not_found "reservation not found"))
      × (get_details_by_booking_reference booking_reference db
          ≡ err (reservation_not_found "reservation not found"))
unfolding get_details get_details_by_booking_reference get_reservation_by_booking_reference
    reservation_with
unknown booking_reference db e = (rw e refl, rw e refl)

module _ (db : Database) (h : IsReferential db) (reservation : Reservation)
    (customer : Customer) where
  abbrev orm_details : ReservationDetails
  orm_details = record {
    reservation = reservation;
    customer = customer;
    passengers = passengers_of db reservation.id;
    segments = map details_of_row (join_segments db (segments_of db reservation.id));
  }

  abbrev sql_details : ReservationDetails
  sql_details = record {
    reservation = reservation;
    customer = customer;
    passengers = get_passengers_by_reservation reservation.id db;
    segments = map details_of_row (get_segment_details_by_reservation reservation.id db);
  }

  details_same : SameReservation orm_details sql_details
  unfolding passengers_of get_passengers_by_reservation segments_of
      get_segment_details_by_reservation
  details_same =
      let rows = select (λ row. row.reservation_id == reservation.id) db.reservation_passengers in
      let segments = select (λ row. row.reservation_id == reservation.id) db.reservation_segments in
      record {
        reservation = refl;
        customer = refl;
        passengers =
            subst (Perm (get_passengers_by_reservation reservation.id db))
              (sym (passengers-join db rows))
              (order_by-perm (λ x y. leb x.id y.id) (join_passengers db rows));
        segments =
            Perm.map details_of_row
              (order_by-perm (λ x y. leb x.segment_id y.segment_id) (join_segments db segments));
      }

  orm_reads :
      (booking_reference : String)
      → reservation_with booking_reference db ≡ some reservation
      → customer_of db reservation.customer_id ≡ some customer
      → get_details booking_reference db ≡ ok orm_details
  unfolding get_details
  orm_reads booking_reference found owner =
      rw (found, owner, details_of-linked db reservation.id h) refl

  sql_reads :
      (booking_reference : String)
      → reservation_with booking_reference db ≡ some reservation
      → customer_of db reservation.customer_id ≡ some customer
      → get_details_by_booking_reference booking_reference db ≡ ok sql_details
  unfolding get_details_by_booking_reference get_reservation_by_booking_reference
      get_reservation_customer join_customer reservation_with customer_of
  sql_reads booking_reference found owner =
      let again : find (is_reservation reservation.id) db.reservations ≡ some reservation =
        find-All (λ r. find (is_reservation r.id) db.reservations ≡ some r)
          (λ row. row.booking_reference == booking_reference) db.reservations h.keyed found in
      rw (found, again, owner) refl

owner_of :
    (booking_reference : String) (db : Database)
    → IsReferential db
    → (reservation : Reservation) → reservation_with booking_reference db ≡ some reservation
    → (c : Customer) × (customer_of db reservation.customer_id ≡ some c)
unfolding reservation_with
owner_of booking_reference db h reservation found =
    find-All (λ r. (c : Customer) × (customer_of db r.customer_id ≡ some c))
      (λ row. row.booking_reference == booking_reference) db.reservations h.owned found

-- In a database whose references lead somewhere, the two data accesses read a reservation alike: both
-- raise that it is not found, or both return the same reservation and customer, with the same passengers
-- and the same segments, flights and fare classes, each as often, in an order of their own.
pub get_details-agree :
    (booking_reference : String) (db : Database)
    → IsReferential db
    → ((get_details booking_reference db ≡ err (reservation_not_found "reservation not found"))
        × (get_details_by_booking_reference booking_reference db
            ≡ err (reservation_not_found "reservation not found")))
      ⊎ ((d d' : ReservationDetails) × (get_details booking_reference db ≡ ok d)
          × (get_details_by_booking_reference booking_reference db ≡ ok d')
          × SameReservation d d')
get_details-agree booking_reference db h =
    elim (Option-cases (reservation_with booking_reference db)) [
      | inl e ↦ inl (unknown booking_reference db e)
      | inr (reservation, e) ↦
          let (customer, e') = owner_of booking_reference db h reservation e in
          inr (
            orm_details db h reservation customer,
            sql_details db h reservation customer,
            orm_reads db h reservation customer booking_reference e e',
            sql_reads db h reservation customer booking_reference e e',
            details_same db h reservation customer,
          )
    ]
