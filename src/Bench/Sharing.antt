-- ===== src/Bench/Sharing.antt =====
-- What the processes of the load generator (bench/loadgen.py) get: every index once, and every user.
use native.Mathlib.Nat.{
  mod-lt, div-add-mod, mod-add-div', add-mul-mod_self_right, add-mul-div_right, div-eq_of_lt,
  mod-eq_of_lt,
}
use agents_at_scale.Prelude.{
  ℕ, zero, suc, ◌≡◌, ◌↔◌, ◌+◌, ◌-◌, ◌*◌, ◌/◌, ◌%◌, ◌≤◌, ◌<◌, sym, ap, ◌∙◌, inl, inr, none, some,
  List, [], ◌∷◌, All, ltb, if◌then◌else◌, arith, Bool-cases,
}
use agents_at_scale.Bench.{
  Args, LoadGenerator, new_generator, take_index, index_at, share, shares_from, shares,
}

index_at-step :
    (n : ℕ) (g : LoadGenerator)
    → index_at n g ≡ (
        if ltb g.args.seeded (g.next_index + n * g.step)
        then none
        else some (g.next_index + n * g.step))
unfolding index_at take_index
index_at-step zero g = ground arith
index_at-step (suc n) g = elim (Bool-cases (ltb g.args.seeded g.next_index)) [
  | inl out ↦ ground (arith, index_at-step n g)
  | inr there ↦ ground (arith, index_at-step n (record g { next_index = g.next_index + g.step }))
]

given_iff :
    (seeded v i : ℕ) → ((if ltb seeded v then none else some v) ≡ some i) ↔ ((v ≡ i) × (i ≤ seeded))
given_iff seeded v i = ground arith

module _ (args : Args) (shards shard : ℕ) (here : shard < shards) where
  -- The `n`-th index of a process, in closed form
  left_over :
      (n i : ℕ)
      → i ≡ args.first_index + shard + n * shards
      → ((i - args.first_index) % shards ≡ shard) × ((i - args.first_index) / shards ≡ n)
  left_over n i same =
      let apart : i - args.first_index ≡ shard + n * shards = omega arith in
      (
        rw apart (add-mul-mod_self_right shard n shards ∙ mod-eq_of_lt here),
        rw apart (
            add-mul-div_right shard n (omega arith)
            ∙ ap (λ d. d + n) (div-eq_of_lt here)
            ∙ omega arith),
      )

  back :
      (n i : ℕ)
      → args.first_index ≤ i
      → (i - args.first_index) % shards ≡ shard
      → (i - args.first_index) / shards ≡ n
      → i ≡ args.first_index + shard + n * shards
  back n i above r q =
      let parts : shard + n * shards ≡ i - args.first_index =
        rw (r, q) at (mod-add-div' (i - args.first_index) shards) in
      omega arith

  -- The process `shard` of `shards` gives its `n`-th conversation the index `i` exactly if `i` is one from the
  -- first to the last that was seeded, and `i - first_index` leaves `shard` at the division by `shards`, with
  -- quotient `n`: each of them goes to one process only, and there once.
  pub index_at_iff :
      (n i : ℕ)
      → (index_at n (new_generator args shard shards) ≡ some i) ↔ (
          (args.first_index ≤ i)
          × (i ≤ args.seeded)
          × ((i - args.first_index) % shards ≡ shard)
          × ((i - args.first_index) / shards ≡ n))
  unfolding new_generator
  index_at_iff n i = rw (index_at-step n (new_generator args shard shards)) (
    (λ e.
        let (same, within) =
          (given_iff args.seeded (args.first_index + shard + n * shards) i).0 e in
        let (r, q) = left_over n i (sym same) in (omega arith, within, r, q)),
    (λ (above, within, r, q).
        (given_iff args.seeded (args.first_index + shard + n * shards) i).1
          (sym (back n i above r q), within)),
  )

abbrev pub sum : List ℕ → ℕ
sum [] = 0
sum (x ∷ xs) = x + sum xs

abbrev least : ℕ → ℕ → ℕ
least a b = if ltb a b then a else b

module _ (users shards : ℕ) where
  -- What the first processes leave for the others
  sum-shares_from :
      (rest shard : ℕ)
      → sum (shares_from users shards shard rest)
        ≡ rest * (users / shards)
          + (least (shard + rest) (users % shards) - least shard (users % shards))
  unfolding shares_from share
  sum-shares_from zero shard = ground arith
  sum-shares_from (suc rest) shard = rw (sum-shares_from rest (suc shard)) ground arith

  abbrev Even : ℕ → Type 0
  Even k = (users / shards ≤ k) × (k ≤ users / shards + 1)

  shares_from-Even : (rest shard : ℕ) → All Even (shares_from users shards shard rest)
  unfolding shares_from share
  shares_from-Even zero shard = tt
  shares_from-Even (suc rest) shard = (ground arith, shares_from-Even rest (suc shard))

  -- The processes get all users together, and each its even part or one more.
  pub shares-Even :
      0 < shards → (sum (shares users shards) ≡ users) × All Even (shares users shards)
  unfolding shares
  shares-Even some_shard =
      let remainder = mod-lt users some_shard in
      let parts = div-add-mod users shards in
      let whole = sum-shares_from shards 0 in
      (ground (arith, remainder, parts, whole), shares_from-Even shards 0)
