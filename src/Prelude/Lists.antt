-- ===== src/Prelude/Lists.antt =====
-- Lists measured by native numbers, and the reads and writes of a table.
use Prim.Native.Nat.{ℕ, suc}
use mathlib.Core.Path.{◌≡◌, refl, subst}
use mathlib.Core.Bool.{Bool, true}
use mathlib.Core.Option.{Option, none, some}
use mathlib.Core.Option
use mathlib.Core.Logic.{inl, inr}
use mathlib.Core.List.{List, [], ◌∷◌}
use agents_at_scale.Prelude.Tests.{if◌then◌else◌, Bool-cases}

-- A predicate on every element.
abbrev pub All {ℓ κ} : {A : Type ℓ} → (A → Type κ) → List A → Type κ
All P [] = Unit
All P (x ∷ xs) = P x × All P xs

module _ {ℓ} {A : Type ℓ} where
  abbrev pub length : List A → ℕ
  length [] = 0
  length (x ∷ xs) = suc (length xs)

  -- The first element that passes the test.
  abbrev pub find : (A → Bool) → List A → Option A
  find p [] = none
  find p (x ∷ xs) = if p x then some x else find p xs

  -- Every element that passes the test, in order.
  abbrev pub select : (A → Bool) → List A → List A
  select p [] = []
  select p (x ∷ xs) = let rest = select p xs in if p x then x ∷ rest else rest

  -- Rewrites every element that passes the test.
  abbrev pub update : (A → Bool) → (A → A) → List A → List A
  update p f [] = []
  update p f (x ∷ xs) = (if p x then f x else x) ∷ update p f xs

  -- What `find` returns passes the test.
  pub find-some : (p : A → Bool) (xs : List A) {x : A} → find p xs ≡ some x → p x ≡ true
  find-some p [] h = absurd (cc)
  find-some p (y ∷ ys) {x} h = elim (Bool-cases (p y)) [
    | inl e ↦
        let k : ◌≡◌ {A = Option A} (some y) (some x) = rw e at h in
        let same : y ≡ x = cc k in rw (← same) e
    | inr e ↦ find-some p ys (rw e at h)
  ]

  -- A lookup by a test that the writes do not change.
  pub find-update :
      (p q : A → Bool) (f : A → A) (xs : List A)
      → ((x : A) → q (f x) ≡ q x)
      → find q (update p f xs) ≡ Option.map (λ x. if p x then f x else x) (find q xs)
  find-update p q f [] keep = refl
  find-update p q f (x ∷ xs) keep = elim (Bool-cases (p x)) [
    | inl e ↦ elim (Bool-cases (q x)) [
      | inl k ↦ rw (e, keep x, k, e)
      | inr k ↦ rw (e, keep x, k) (find-update p q f xs keep)
    ]
    | inr e ↦ elim (Bool-cases (q x)) [
      | inl k ↦ rw (e, k, e)
      | inr k ↦ rw (e, k) (find-update p q f xs keep)
    ]
  ]

  -- The row that a test finds, after a write to the rows that pass it.
  pub find-update_self :
      (p : A → Bool) (f : A → A) (xs : List A) {x : A}
      → ((y : A) → p (f y) ≡ p y)
      → find p xs ≡ some x
      → find p (update p f xs) ≡ some (f x)
  find-update_self p f xs {x} keep h = rw (find-update p p f xs keep, h, find-some p xs h)

module _ {ℓ κ} {A : Type ℓ} (P : A → Type κ) where
  pub find-All : (p : A → Bool) (xs : List A) {x : A} → All P xs → find p xs ≡ some x → P x
  find-All p [] a h = absurd (cc)
  find-All p (y ∷ ys) {x} a h = elim (Bool-cases (p y)) [
    | inl e ↦
        let k : ◌≡◌ {A = Option A} (some y) (some x) = rw e at h in
        let same : y ≡ x = cc k in subst P same a.0
    | inr e ↦ find-All p ys a.1 (rw e at h)
  ]

  -- Writes keep what each of them keeps.
  pub update-All :
      (p : A → Bool) (f : A → A) (xs : List A)
      → ((x : A) → P x → P (f x))
      → All P xs
      → All P (update p f xs)
  update-All p f [] keep a = tt
  update-All p f (x ∷ xs) keep a = (
    elim (Bool-cases (p x)) [ inl e ↦ rw e (keep x a.0) | inr e ↦ rw e a.0 ],
    update-All p f xs keep a.1,
  )
