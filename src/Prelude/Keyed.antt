-- ===== src/Prelude/Keyed.antt =====
-- A table read by a key: what each key shows, and what a write to the rows does to it.
use mathlib.Core.Path.{◌≡◌, refl, sym, ap, ◌∙◌}
use mathlib.Core.Bool.{Bool, true, false, ◌&&◌}
use mathlib.Core.Option.{Option, none, some}
use mathlib.Core.Option
use mathlib.Core.Logic.{◌↔◌, inl, inr}
use mathlib.Core.List.{List}
use native.Mathlib.Omega.{arith}
use Prim.Native.Nat.{ℕ}
use agents_at_scale.Prelude.Tests.{if◌then◌else◌, Bool-cases, nat_beq, nat_beq_iff}
use agents_at_scale.Prelude.Lists.{find, update, find-update, find-some}
use agents_at_scale.Prelude.Eq.{Eq, ◌==◌}

pub pair_beq_iff : (p q : ℕ × ℕ) → ((nat_beq p.0 q.0 && nat_beq p.1 q.1) ≡ true) ↔ (p ≡ q)
pair_beq_iff (a, b) (c, d) = ground (arith, nat_beq_iff a c, nat_beq_iff b d)

instance abbrev pub pair_eq : Eq (ℕ × ℕ)
pair_eq = record { beq = λ p q. nat_beq p.0 q.0 && nat_beq p.1 q.1; beq_iff = pair_beq_iff }

-- A map, changed at one key.
abbrev pub adjust : {K A : Type 0} ⦃test : Eq K⦄ → K → (A → A) → (K → Option A) → K → Option A
adjust k f shown j = if j == k then Option.map f (shown j) else shown j

and_left : (a b : Bool) → (a && b) ≡ true → a ≡ true
and_left true b h = refl
and_left false b h = h

and_both : {a b : Bool} → a ≡ true → b ≡ true → (a && b) ≡ true
and_both p q = rw (p, q)

module _ {K R A : Type 0} ⦃test : Eq K⦄ (key : R → K) (shown : R → A) where
  abbrev pub lookup : List R → K → Option A
  lookup rows k = Option.map shown (find (λ row. key row == k) rows)

  -- A write that among the rows shown is one to the row of `k`, where it does `g`.
  pub lookup-update :
      (p : R → Bool) (f : R → R) (g : A → A) (k : K) (rows : List R)
      → ((row : R) → key (f row) ≡ key row)
      → ((j : K) (row : R) → find (λ r. key r == j) rows ≡ some row → p row ≡ true → j ≡ k)
      → ((row : R)
          → find (λ r. key r == k) rows ≡ some row
          → (p row ≡ true) × (shown (f row) ≡ g (shown row)))
      → (j : K) → lookup (update p f rows) j ≡ adjust k g (lookup rows) j
  lookup-update p f g k rows keep only here j =
      rw (find-update p (λ row. key row == j) f rows (λ row. ap (λ l. test.beq l j) (keep row)))
        (read (find (λ row. key row == j) rows) refl)
    where
      read :
          (found : Option R)
          → find (λ row. key row == j) rows ≡ found
          → Option.map shown (Option.map (λ row. if p row then f row else row) found) ≡ (
              if test.beq j k
              then Option.map g (Option.map shown found)
              else Option.map shown found)
      read none e = elim (Bool-cases (test.beq j k)) [ inl s ↦ rw s | inr s ↦ rw s ]
      read (some row) e = elim (Bool-cases (test.beq j k)) [
        | inl s ↦
            let same : j ≡ k = (test.beq_iff j k).0 s in
            let (hit, there) = here row (ap (λ l. find (λ r. key r == l) rows) (sym same) ∙ e) in
            rw (s, hit) (ap some there)
        | inr s ↦ elim (Bool-cases (p row)) [
          | inl hit ↦
              let other : test.beq j k ≡ true = (test.beq_iff j k).1 (only j row e hit) in
              absurd (cc)
          | inr miss ↦ rw (s, miss)
        ]
      ]

  -- A write to the rows of a key that pass a test, which the row shown passes.
  pub lookup-update_if :
      (guard : R → Bool) (f : R → R) (g : A → A) (k : K) (rows : List R)
      → ((row : R) → key (f row) ≡ key row)
      → ((row : R) → shown (f row) ≡ g (shown row))
      → ((row : R) → find (λ r. key r == k) rows ≡ some row → guard row ≡ true)
      → (j : K)
      → lookup (update (λ row. key row == k && guard row) f rows) j ≡ adjust k g (lookup rows) j
  lookup-update_if guard f g k rows keep commutes passes =
      lookup-update (λ row. key row == k && guard row) f g k rows keep
        (λ j row e hit.
          sym ((test.beq_iff (key row) j).0 (find-some (λ r. key r == j) rows e))
          ∙ (test.beq_iff (key row) k).0 (and_left (key row == k) (guard row) hit))
        (λ row e. (and_both (find-some (λ r. key r == k) rows e) (passes row e), commutes row))

  -- A write to the rows of a key.
  pub lookup-update_key :
      (f : R → R) (g : A → A) (k : K) (rows : List R)
      → ((row : R) → key (f row) ≡ key row)
      → ((row : R) → shown (f row) ≡ g (shown row))
      → (j : K) → lookup (update (λ row. key row == k) f rows) j ≡ adjust k g (lookup rows) j
  lookup-update_key f g k rows keep commutes =
      lookup-update (λ row. key row == k) f g k rows keep
        (λ j row e hit.
          sym ((test.beq_iff (key row) j).0 (find-some (λ r. key r == j) rows e))
          ∙ (test.beq_iff (key row) k).0 hit)
        (λ row e. (find-some (λ r. key r == k) rows e, commutes row))
