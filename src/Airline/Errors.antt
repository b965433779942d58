-- ===== src/Airline/Errors.antt =====
-- The exceptions of the airline domain (langgraph-python/app/airline/repository/errors.py and the
-- built-in ones that its code raises), and computations that may raise one.
use agents_at_scale.Prelude.{String, ◌≡◌, refl, Bool, true, false, Option, none, some}

-- The text is the exception's message, `str(exc)`.
pub data Error : Type 0 where
  customer_not_found reservation_not_found segment_not_found flight_not_found : String → Error
  travel_credit_not_found verification_error rebooking_rule : String → Error
  value_error runtime_error : String → Error
  -- a read through a relationship that the database does not hold
  attribute_error : Error
  type_error : String → Error

-- `isinstance(error, ValueError)`: the rule error is a subclass.
abbrev pub is_value_error : Error → Bool
is_value_error (rebooking_rule _) = true
is_value_error (value_error _) = true
is_value_error _ = false

abbrev pub message : Error → String
message (customer_not_found m) = m
message (reservation_not_found m) = m
message (segment_not_found m) = m
message (flight_not_found m) = m
message (travel_credit_not_found m) = m
message (verification_error m) = m
message (rebooking_rule m) = m
message (value_error m) = m
message (runtime_error m) = m
message attribute_error = "attribute error"
message (type_error m) = m

pub data Result {ℓ} (A : Type ℓ) : Type ℓ where
  ok : A → Result A
  err : Error → Result A

infixl 5 ◌>>=◌ ◌>>◌
abbrev pub ◌>>=◌ {ℓ κ} : {A : Type ℓ} {B : Type κ} → Result A → (A → Result B) → Result B
err raised >>= next = err raised
ok value >>= next = next value

abbrev pub ◌>>◌ {ℓ} : {A : Type ℓ} → Result (Unit {0}) → Result A → Result A
first >> second = first >>= λ _. second

-- `if test: raise error`
abbrev pub raise_if : Bool → Error → Result (Unit {0})
raise_if true e = err e
raise_if false e = ok tt

-- `if value is None: raise error`
abbrev pub or_raise {ℓ} : {A : Type ℓ} → Option A → Error → Result A
or_raise none e = err e
or_raise (some a) e = ok a

-- What a successful bind says of its parts.
module _ {ℓ κ} {A : Type ℓ} {B : Type κ} (next : A → Result B) {result : B} where
  after_ok : (r : Result A) → (r >>= next) ≡ ok result → (a : A) × (r ≡ ok a) × (next a ≡ ok result)
  after_ok (err raised) done = cc
  after_ok (ok value) done = (value, refl, done)

pub >>=-eq-ok {ℓ κ} :
    {A : Type ℓ} {B : Type κ} (r : Result A) (next : A → Result B) {result : B}
    → (r >>= next) ≡ ok result
    → (a : A) × (r ≡ ok a) × (next a ≡ ok result)
>>=-eq-ok r next = after_ok next r
