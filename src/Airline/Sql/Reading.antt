-- ===== src/Airline/Sql/Reading.antt =====
-- What a snapshot of the statements says of the rows that it joins.
use agents_at_scale.Prelude.{
  ℕ, ◌≡◌, refl, sym, ap, subst, ◌∙◌, [], ◌∷◌, ◌++◌, Option, none, some, arith, find, find-some,
  nat_beq_iff, Option-cases, inl, inr,
}
use agents_at_scale.Prelude.Eq.{◌==◌, nat_eq}
use agents_at_scale.Airline.Errors.{ok}
use agents_at_scale.Airline.Models.{
  Reservation, Flight, FareClass, FlightFare, ReservationSegment, TravelCredit,
}
use agents_at_scale.Airline.Schemas.{Selection, Snapshot}
use agents_at_scale.Airline.Database.{
  Database, Session, segment_row, reservation_row, flight_row, fare_row, credit_row, Tx, ◌>>=◌,
  pure,
}
use agents_at_scale.Airline.Snapshot.{is_fare, is_segment, is_reservation, flight_of, fare_class_of}
use agents_at_scale.Airline.Rebooking.Reading.{Rows, fields_of}
use agents_at_scale.Airline.Sql.Queries.{
  SegmentRow, TargetRow, count_passengers, join_segment, get_rebooking_segment, join_target,
  get_rebooking_target, get_travel_credit,
}
use agents_at_scale.Airline.Sql.Rebooking.{fill_snapshot, selected_credit, snapshot}

module _ {sel : Selection} {db : Database} where
  -- The statement counts the rows of the association alone.
  abbrev pub counted_fields : Rows sel db → Snapshot
  counted_fields rows = record (fields_of rows) {
    passenger_count = count_passengers rows.segment.reservation_id db;
  }

-- A selected credit was found, and belongs to the customer.
abbrev pub OwnCredit : Option ℕ → ℕ → Database → Option TravelCredit → Type 0
OwnCredit none customer_id db credit = credit ≡ none
OwnCredit (some credit_id) customer_id db none = ⊥
OwnCredit (some credit_id) customer_id db (some c) =
    get_travel_credit credit_id customer_id db ≡ some c

find_flight_id :
    (flight_id : ℕ) (db : Database) {flight : Flight}
    → flight_of db flight_id ≡ some flight
    → flight.id ≡ flight_id
unfolding flight_of
find_flight_id flight_id db {flight} h =
    (nat_beq_iff flight.id flight_id).0 (find-some (λ row. row.id == flight_id) db.flights h)

join_segment_inv :
    (db : Database) (rs : ReservationSegment) (r : Option Reservation) (f : Option Flight)
    (c : Option FareClass) {s : SegmentRow}
    → join_segment db rs r f c ≡ some s
    → (r' : Reservation) × (f' : Flight) × (c' : FareClass) × (r ≡ some r')
      × (f ≡ some f')
      × (c ≡ some c')
      × (join_segment db rs (some r') (some f') (some c') ≡ some s)
unfolding join_segment
join_segment_inv db rs (some r) (some f) (some c) h = (r, f, c, refl, refl, refl, h)
join_segment_inv db rs (some r) (some f) none h = absurd (cc)
join_segment_inv db rs (some r) none c h = absurd (cc)
join_segment_inv db rs none f c h = absurd (cc)

join_target_inv :
    (ff : FlightFare) (f : Option Flight) (c : Option FareClass) {t : TargetRow}
    → join_target ff f c ≡ some t
    → (f' : Flight) × (c' : FareClass) × (f ≡ some f')
      × (c ≡ some c')
      × (join_target ff (some f') (some c') ≡ some t)
unfolding join_target
join_target_inv ff (some f) (some c) h = (f, c, refl, refl, h)
join_target_inv ff (some f) none h = absurd (cc)
join_target_inv ff none c h = absurd (cc)

filled :
    {sel : Selection} {db : Database} {s : SegmentRow} {t : TargetRow} (rows : Rows sel db)
    → join_segment db rows.segment (some rows.reservation) (some rows.flight) (some rows.fare_class)
      ≡ some s
    → join_target rows.target (some rows.target_flight) (some rows.target_class) ≡ some t
    → rows.target_flight.id ≡ rows.target.flight_id
    → fill_snapshot s t ≡ counted_fields rows
unfolding join_segment join_target fill_snapshot
filled rows h k same = ground arith

module _ (sel : Selection) (db : Database) where
  -- The two statements together join the rows of a snapshot.
  read_rows :
      {s : SegmentRow} {t : TargetRow}
      → get_rebooking_segment sel.segment_id db ≡ some s
      → get_rebooking_target sel.new_flight_id sel.new_fare_class_id db ≡ some t
      → (rows : Rows sel db) × (fill_snapshot s t ≡ counted_fields rows)
  unfolding get_rebooking_segment get_rebooking_target
  read_rows {s} {t} hs ht =
      elim (Option-cases (find (is_segment sel.segment_id) db.reservation_segments)) [
        | inl e ↦ absurd (ground arith)
        | inr (rs, e) ↦
            elim (Option-cases
              (find (is_fare sel.new_flight_id sel.new_fare_class_id) db.flight_fares)) [
                | inl e' ↦ absurd (ground arith)
                | inr (ff, e') ↦
                    joined rs e ff e' (rw (e, get_rebooking_segment) at hs)
                      (rw (e', get_rebooking_target) at ht)
              ]
      ]
    where
      joined :
          (rs : ReservationSegment)
          → find (is_segment sel.segment_id) db.reservation_segments ≡ some rs
          → (ff : FlightFare)
          → find (is_fare sel.new_flight_id sel.new_fare_class_id) db.flight_fares ≡ some ff
          → join_segment db rs
              (find (is_reservation rs.reservation_id) db.reservations)
              (flight_of db rs.flight_id)
              (fare_class_of db rs.fare_class_id)
            ≡ some s
          → join_target ff (flight_of db ff.flight_id) (fare_class_of db ff.fare_class_id) ≡ some t
          → (rows : Rows sel db) × (fill_snapshot s t ≡ counted_fields rows)
      joined rs e ff e' h k =
          let (r, f, c, er, ef, ec, hj) = join_segment_inv db rs _ _ _ h in
          let (g, d, eg, ed, kj) = join_target_inv ff _ _ k in
          let rows : Rows sel db = record {
            segment = rs;
            target = ff;
            reservation = r;
            flight = f;
            fare_class = c;
            target_flight = g;
            target_class = d;
            segment_found = e;
            target_found = e';
            reservation_found = er;
            flight_found = ef;
            fare_class_found = ec;
            target_flight_found = eg;
            target_class_found = ed;
          } in
          (rows, filled rows hj kj (find_flight_id ff.flight_id db eg))

abbrev paired : Snapshot → Tx (Option TravelCredit) → Tx (Snapshot × Option TravelCredit)
paired snap m = m >>= λ c. pure (snap, c)

credit_seen :
    (credit_id : Option ℕ) (customer_id : ℕ) (s : Session) {credit : Option TravelCredit}
    {snap snap' : Snapshot} {t : Session}
    → paired snap (selected_credit credit_id customer_id) s ≡ ok ((snap', credit), t)
    → OwnCredit credit_id customer_id s.db credit × (snap' ≡ snap) × (t.db ≡ s.db)
unfolding selected_credit
credit_seen none customer_id s h = ground arith
credit_seen (some credit_id) customer_id s {credit} h =
    elim (Option-cases (get_travel_credit credit_id customer_id s.db)) [
      | inl e ↦ absurd (ground arith)
      | inr (c, e) ↦ ground arith
    ]

-- The session with the locks of the two statements.
abbrev held : Session → SegmentRow → TargetRow → Session
held s row target = record s {
  locks =
      (((s.locks ++ segment_row row.segment_id ∷ []) ++ reservation_row row.reservation_id ∷ [])
        ++ flight_row target.flight_id ∷ [])
      ++ fare_row (target.flight_id, target.fare_class_id) ∷ [];
}

-- A snapshot that was read shows the rows that it joins, and a credit of the customer; it writes nothing.
pub snapshot_inv :
    (sel : Selection) (s : Session) {snap : Snapshot} {credit : Option TravelCredit} {t : Session}
    → snapshot sel s ≡ ok ((snap, credit), t)
    → (rows : Rows sel s.db) × (snap ≡ counted_fields rows)
      × OwnCredit sel.travel_credit_id rows.reservation.customer_id s.db credit
      × (t.db ≡ s.db)
unfolding snapshot fill_snapshot
snapshot_inv sel s {snap} {credit} {t} h =
    elim (Option-cases (get_rebooking_segment sel.segment_id s.db)) [
      | inl e ↦ absurd (ground arith)
      | inr (row, e) ↦
          elim (Option-cases (get_rebooking_target sel.new_flight_id sel.new_fare_class_id s.db)) [
            | inl e' ↦ absurd (ground arith)
            | inr (target, e') ↦
                let (rows, same) = read_rows sel s.db e e' in
                let (own, seen, after) =
                  credit_seen sel.travel_credit_id row.customer_id (held s row target)
                    {credit = credit} {snap = fill_snapshot row target} {snap' = snap} {t = t}
                    (ground arith) in
                let customer : row.customer_id ≡ rows.reservation.customer_id =
                  ap (λ (f : Snapshot). f.customer_id) same in
                (
                  rows,
                  seen ∙ same,
                  subst (λ k. OwnCredit sel.travel_credit_id k s.db credit) customer own,
                  after,
                )
          ]
    ]

join_segment-some :
    (db : Database) (rs : ReservationSegment) (r : Reservation) (f : Flight) (c : FareClass)
    → (s : SegmentRow) × (join_segment db rs (some r) (some f) (some c) ≡ some s)
      × (s.customer_id ≡ r.customer_id)
unfolding join_segment
join_segment-some db rs r f c = (_, refl, refl)

join_target-some :
    (ff : FlightFare) (f : Flight) (c : FareClass)
    → (t : TargetRow) × (join_target ff (some f) (some c) ≡ some t)
unfolding join_target
join_target-some ff f c = (_, refl)

selected_credit_own :
    (credit_id : Option ℕ) (customer_id : ℕ) (s : Session) (credit : Option TravelCredit)
    → OwnCredit credit_id customer_id s.db credit
    → (t : Session) × (selected_credit credit_id customer_id s ≡ ok (credit, t)) × (t.db ≡ s.db)
unfolding selected_credit
selected_credit_own none customer_id s credit own = (s, ground arith, refl)
selected_credit_own (some credit_id) customer_id s none own = elim own [ ]
selected_credit_own (some credit_id) customer_id s (some c) own =
    (record s { locks = s.locks ++ credit_row c.id ∷ [] }, ground arith, refl)

-- The rows and the customer's credit are enough to read a snapshot.
pub snapshot_rows :
    {sel : Selection} (s : Session) (rows : Rows sel s.db) (credit : Option TravelCredit)
    → OwnCredit sel.travel_credit_id rows.reservation.customer_id s.db credit
    → (t : Session) × (snapshot sel s ≡ ok ((counted_fields rows, credit), t)) × (t.db ≡ s.db)
unfolding snapshot get_rebooking_segment get_rebooking_target
snapshot_rows {sel} s rows credit own =
    let (row, joined, customer) =
      join_segment-some s.db rows.segment rows.reservation rows.flight rows.fare_class in
    let (target, aimed) = join_target-some rows.target rows.target_flight rows.target_class in
    let found : get_rebooking_segment sel.segment_id s.db ≡ some row =
      rw
        (
          get_rebooking_segment, rows.segment_found, rows.reservation_found, rows.flight_found,
          rows.fare_class_found,
        )
        joined in
    let found' : get_rebooking_target sel.new_flight_id sel.new_fare_class_id s.db ≡ some target =
      rw
        (get_rebooking_target, rows.target_found, rows.target_flight_found, rows.target_class_found)
        aimed in
    let same =
      filled rows joined aimed
        (find_flight_id rows.target.flight_id s.db rows.target_flight_found) in
    let (t, paid, after) =
      selected_credit_own sel.travel_credit_id row.customer_id (held s row target) credit
        (subst (λ k. OwnCredit sel.travel_credit_id k s.db credit) (sym customer) own) in
    (t, ground arith, after)
