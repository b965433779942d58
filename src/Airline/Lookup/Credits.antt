-- ===== src/Airline/Lookup/Credits.antt =====
-- Which travel credits are offered.
use agents_at_scale.Prelude.{
  ℕ, String, ◌≡◌, ◌↔◌, ◌⊎◌, sym, subst, ◌<◌, Bool, true, Bool-cases, inl, inr, List, [], ◌∷◌, arith,
  select,
}
use agents_at_scale.Prelude.Eq.{◌==◌, nat_eq, string_eq}
use agents_at_scale.Prelude.Int.{pos, ◌<ℤ◌}
use text.Mathlib.TextEquality.{eq_iff}
use agents_at_scale.Airline.Errors.{ok, raise_if, >>=-eq-ok, value_error}
use agents_at_scale.Airline.Models.{TravelCredit, TravelCreditStatus, travel_credit_status_eq}
use agents_at_scale.Airline.Database.{Database}
use agents_at_scale.Airline.Lookup.{
  insert, order_by, is_available, expires_before, get_available_travel_credits,
}

module _ {A : Type 0} where
  unfoldable pub In : A → List A → Type 0
  In x [] = ⊥
  In x (y ∷ ys) = (x ≡ y) ⊎ In x ys

  In-select : (p : A → Bool) (x : A) (xs : List A) → In x (select p xs) ↔ In x xs × (p x ≡ true)
  unfolding In
  In-select p x [] = (λ m. absurd m, λ m. absurd m.0)
  In-select p x (y ∷ ys) = elim (Bool-cases (p y)) [
    | inl e ↦ rw e (
      λ m. elim m [
        | inl same ↦ (inl same, rw same e)
        | inr rest ↦ let (mem, k) = (In-select p x ys).0 rest in (inr mem, k)
      ],
      λ q. elim q.0 [ inl same ↦ inl same | inr rest ↦ inr ((In-select p x ys).1 (rest, q.1)) ],
    )
    | inr e ↦ rw e (
      λ m. let (mem, k) = (In-select p x ys).0 m in (inr mem, k),
      λ q. elim q.0 [
        | inl same ↦
            let passes : p y ≡ true = subst (λ z. p z ≡ true) same q.1 in
            absurd (ground (arith, e, passes))
        | inr rest ↦ (In-select p x ys).1 (rest, q.1)
      ],
    )
  ]

  In-insert :
      (before : A → A → Bool) (x y : A) (ys : List A)
      → In x (insert before y ys) ↔ (x ≡ y) ⊎ In x ys
  unfolding In insert
  In-insert before x y [] = (λ m. m, λ m. m)
  In-insert before x y (z ∷ zs) = elim (Bool-cases (before z y)) [
    | inl e ↦ rw e (
      λ m. elim m [
        | inl same ↦ inr (inl same)
        | inr rest ↦ elim ((In-insert before x y zs).0 rest) [
          | inl same ↦ inl same
          | inr mem ↦ inr (inr mem)
        ]
      ],
      λ m. elim m [
        | inl same ↦ inr ((In-insert before x y zs).1 (inl same))
        | inr rest ↦ elim rest [
          | inl same ↦ inl same
          | inr mem ↦ inr ((In-insert before x y zs).1 (inr mem))
        ]
      ],
    )
    | inr e ↦ rw e (λ m. m, λ m. m)
  ]

  In-order_by : (before : A → A → Bool) (x : A) (xs : List A) → In x (order_by before xs) ↔ In x xs
  unfolding In order_by
  In-order_by before x [] = (λ m. m, λ m. m)
  In-order_by before x (y ∷ ys) = (
    λ m. elim ((In-insert before x y (order_by before ys)).0 m) [
      | inl same ↦ inl same
      | inr rest ↦ inr ((In-order_by before x ys).0 rest)
    ],
    λ m.
        (In-insert before x y (order_by before ys)).1
          (elim m [ inl same ↦ inl same | inr rest ↦ inr ((In-order_by before x ys).1 rest) ]),
  )

-- A credit that its customer can use for a price in the currency
pub record IsOpen (customer_id : ℕ) (currency : String) (now : ℕ) (c : TravelCredit) : Type 0 where
  pub owned : c.customer_id ≡ customer_id
  pub same_currency : c.currency ≡ currency
  pub left : pos 0 <ℤ c.remaining_amount
  pub unexpired : now < c.expires_at
  pub open_status :
      (c.status ≡ TravelCreditStatus.available) ⊎ (c.status ≡ TravelCreditStatus.partially_used)

is_available_iff :
    (customer_id : ℕ) (currency : String) (now : ℕ) (c : TravelCredit)
    → (is_available customer_id currency now c ≡ true) ↔ IsOpen customer_id currency now c
unfolding is_available
is_available_iff customer_id currency now c = ground (arith, eq_iff c.currency currency)

-- The credits that are offered are the rows of the table that the customer can use, all of them and no others.
pub get_available_travel_credits_iff :
    (customer_id : ℕ) (currency : String) (now : ℕ) (db : Database) {found : List TravelCredit}
    (c : TravelCredit)
    → get_available_travel_credits customer_id currency now db ≡ ok found
    → In c found ↔ In c db.travel_credits × IsOpen customer_id currency now c
unfolding get_available_travel_credits
get_available_travel_credits_iff customer_id currency now db {found} c h =
    let p = is_available customer_id currency now in
    let sorted = order_by expires_before (select p db.travel_credits) in
    let (_, _, done) =
      >>=-eq-ok (raise_if (currency == "") (value_error "currency is required")) _ h in
    let same : sorted ≡ found = cc done in
    let order = In-order_by expires_before c (select p db.travel_credits) in
    let choose = In-select p c db.travel_credits in
    let open_iff = is_available_iff customer_id currency now c in
    (
      λ m. let (mem, k) = choose.0 (order.0 (subst (In c) (sym same) m)) in (mem, open_iff.0 k),
      λ q. subst (In c) same (order.1 (choose.1 (q.0, open_iff.1 q.1))),
    )
