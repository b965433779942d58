-- ===== src/Airline/Database.antt =====
-- The tables (langgraph-python/app/airline/models.py) and a transaction over them: an exception
-- ends it, and a row lock that it takes is noted in the order of taking. Transactions run one after
-- another, each on the rows that the one before left.
use agents_at_scale.Prelude.{
  ℕ, ◌≡◌, refl, ap, ◌∙◌, Bool, Option, List, [], ◌∷◌, ◌++◌, if◌then◌else◌,
}
use agents_at_scale.Airline.Errors
use agents_at_scale.Airline.Errors.{Error, Result, ok, err}
use agents_at_scale.Airline.Models.{
  Customer, Passenger, ReservationPassenger, Reservation, Flight, FareClass, FlightFare,
  ReservationSegment, TravelCredit, FlightChange,
}

pub record Database : Type 0 where
  pub customers : List Customer
  pub passengers : List Passenger
  pub reservation_passengers : List ReservationPassenger
  pub reservations : List Reservation
  pub flights : List Flight
  pub fare_classes : List FareClass
  pub flight_fares : List FlightFare
  pub reservation_segments : List ReservationSegment
  pub travel_credits : List TravelCredit
  pub flight_changes : List FlightChange

-- The rows that `FOR UPDATE` locks; a fare by its flight and fare class.
pub data Lock : Type 0 where
  segment_row reservation_row flight_row credit_row : ℕ → Lock
  fare_row : ℕ × ℕ → Lock

pub record Session : Type 0 where
  pub db : Database
  pub locks : List Lock

abbrev pub Tx : Type 0 → Type 0
Tx A = Session → Result (A × Session)

infixl 5 ◌>>=◌ ◌>>◌
abbrev pub ◌>>=◌ : {A B : Type 0} → Tx A → (A → Tx B) → Tx B
◌>>=◌ m f s = elim (m s) [ err e ↦ err e | ok (a, s') ↦ f a s' ]

abbrev pub ◌>>◌ : {B : Type 0} → Tx (Unit {0}) → Tx B → Tx B
m >> k = m >>= λ _. k

abbrev pub pure : {A : Type 0} → A → Tx A
pure a s = ok (a, s)

abbrev pub lift : {A : Type 0} → Result A → Tx A
lift r s = elim r [ ok a ↦ ok (a, s) | err e ↦ err e ]

abbrev pub gets : {A : Type 0} → (Database → A) → Tx A
gets f s = ok (f s.db, s)

abbrev pub modify : (Database → Database) → Tx (Unit {0})
modify f s = ok (tt, record s { db = f s.db })

abbrev pub or_raise : {A : Type 0} → Option A → Error → Tx A
or_raise o e = lift (Errors.or_raise o e)

abbrev pub raise_if : Bool → Error → Tx (Unit {0})
raise_if b e = lift (Errors.raise_if b e)

-- `with_for_update`, if `wanted`
abbrev pub hold : Bool → Lock → Tx (Unit {0})
hold wanted l s = ok (tt, if wanted then record s { locks = s.locks ++ l ∷ [] } else s)

-- `async with session.begin()`: an exception rolls every write back.
abbrev pub atomically : {A : Type 0} → Tx A → Database → Result A × Database
atomically m db = elim (m (record { db = db; locks = [] })) [
  | ok (a, s) ↦ (ok a, s.db)
  | err e ↦ (err e, db)
]

pub >>=-eq-ok :
    {A B : Type 0} (m : Tx A) (f : A → Tx B) (s : Session) {b : B} {t : Session}
    → (m >>= f) s ≡ ok (b, t)
    → (a : A) × (u : Session) × (m s ≡ ok (a, u)) × (f a u ≡ ok (b, t))
>>=-eq-ok {A} {B} m f s {b} {t} h = go (m s) refl h
  where
    go :
        (r : Result (A × Session))
        → m s ≡ r
        → ◌≡◌ {A = Result (B × Session)}
            (elim r [ err e ↦ err e | ok (a, s') ↦ f a s' ])
            (ok (b, t))
        → (a : A) × (u : Session) × (m s ≡ ok (a, u)) × (f a u ≡ ok (b, t))
    go (ok (a, u)) e k = (a, u, e, k)
    go (err x) e k = absurd (cc)

-- A committed transaction ran to its end, and its session holds the rows that are left.
pub atomically_inv :
    {A : Type 0} (m : Tx A) (db db' : Database) {a : A}
    → atomically m db ≡ (ok a, db')
    → (s : Session) × (m (record { db = db; locks = [] }) ≡ ok (a, s)) × (s.db ≡ db')
atomically_inv {A} m db db' {a} h = go (m (record { db = db; locks = [] })) refl h
  where
    go :
        (r : Result (A × Session))
        → m (record { db = db; locks = [] }) ≡ r
        → ◌≡◌ {A = Result A × Database}
            (elim r [ ok (x, s) ↦ (ok x, s.db) | err e ↦ (err e, db) ])
            (ok a, db')
        → (s : Session) × (m (record { db = db; locks = [] }) ≡ ok (a, s)) × (s.db ≡ db')
    go (ok (x, s)) e k =
        let first : ◌≡◌ {A = Result A} (ok x) (ok a) = ap (λ (p : Result A × Database). p.0) k in
        let same : x ≡ a = cc first in
        (s, e ∙ ap (λ y. ok (y, s)) same, ap (λ (p : Result A × Database). p.1) k)
    go (err x) e k =
        let first : ◌≡◌ {A = Result A} (err x) (ok a) = ap (λ (p : Result A × Database). p.0) k in
        absurd (cc first)

-- What holds of the database before a transaction, and after each that commits, holds after any.
pub atomically_cases {ℓ} :
    {A : Type 0} (P : Database → Type ℓ) (m : Tx A) (db : Database)
    → P db
    → ((a : A) (s : Session) → m (record { db = db; locks = [] }) ≡ ok (a, s) → P s.db)
    → P (atomically m db).1
atomically_cases {A} P m db before after = go (m (record { db = db; locks = [] })) refl
  where
    go :
        (r : Result (A × Session))
        → m (record { db = db; locks = [] }) ≡ r
        → P (
            let x : Result A × Database = elim r [
              | ok (x, s) ↦ (ok x, s.db)
              | err e ↦ (err e, db)
            ] in
            x.1)
    go (ok (x, s)) e = after x s e
    go (err x) e = before

pub atomically_ok :
    {A : Type 0} (m : Tx A) (db : Database) {a : A} {s : Session}
    → m (record { db = db; locks = [] }) ≡ ok (a, s)
    → atomically m db ≡ (ok a, s.db)
atomically_ok m db e = rw (e, atomically)

pub atomically_err :
    {A : Type 0} (m : Tx A) (db : Database) {x : Error}
    → m (record { db = db; locks = [] }) ≡ err x
    → atomically m db ≡ (err x, db)
atomically_err m db e = rw (e, atomically)
