-- ===== src/Bench/Report/Capacity.antt =====
-- What the capacity is (bench/report.py), without the loop.
use agents_at_scale.Prelude.{
  ℕ, ◌≡◌, ◌⊎◌, inl, inr, refl, ap, true, false, Option, none, some, List, [], ◌∷◌, ◌++◌, All, arith,
  Bool-cases, Option-cases,
}
use agents_at_scale.Bench.Report.{Floats, Level, truthy, or_zero, baseline, is_over, best, capacity}

module _ (floats : Floats) (max_error_rate limit : floats.Float) where
  pub record Meets (level : Level floats) : Type 0 where
    pub p95 : floats.Float
    pub measured : level.p95 ≡ some p95
    pub rare : floats.exceeds (or_zero floats level.error_rate) max_error_rate ≡ false
    pub fast : floats.exceeds p95 limit ≡ false

  abbrev pub last_users : List (Level floats) → Option ℕ → Option ℕ
  last_users [] so_far = so_far
  last_users (level ∷ levels) so_far = last_users levels (some level.users)

  abbrev pub Stops : List (Level floats) → Type 0
  Stops [] = Unit
  Stops (level ∷ _) = ¬ Meets level

  -- The levels up to some point meet the goal, the next one does not, and the number is the last one's.
  pub record IsBest (levels : List (Level floats)) (so_far users : Option ℕ) : Type 0 where
    pub good : List (Level floats)
    pub rest : List (Level floats)
    pub split : levels ≡ good ++ rest
    pub all_meet : All Meets good
    pub stops : Stops rest
    pub number : users ≡ last_users good so_far

  within : (level : Level floats) → is_over floats max_error_rate limit level ≡ false → Meets level
  unfolding is_over
  within level e = elim (Option-cases level.p95) [
    | inl missing ↦ absurd (ground (arith, e, missing))
    | inr (p, measured) ↦ record {
      p95 = p;
      measured = measured;
      rare = ground (arith, e, measured);
      fast = ground (arith, e, measured);
    }
  ]

  over : (level : Level floats) → is_over floats max_error_rate limit level ≡ true → ¬ Meets level
  unfolding is_over
  over level e meets = ground (arith, e, meets.measured, meets.rare, meets.fast)

  best-IsBest :
      (levels : List (Level floats)) (so_far : Option ℕ)
      → IsBest levels so_far (best floats max_error_rate limit levels so_far)
  unfolding best
  best-IsBest [] so_far = record {
    good = [];
    rest = [];
    split = refl;
    all_meet = tt;
    stops = tt;
    number = refl;
  }
  best-IsBest (level ∷ levels) so_far =
      elim (Bool-cases (is_over floats max_error_rate limit level)) [
        | inl stop ↦ rw stop (record {
          good = [];
          rest = level ∷ levels;
          split = refl;
          all_meet = tt;
          stops = over level stop;
          number = refl;
        })
        | inr go_on ↦
            let more = best-IsBest levels (some level.users) in
            rw go_on (record {
              good = level ∷ more.good;
              rest = more.rest;
              split = ap (λ l. level ∷ l) more.split;
              all_meet = (within level go_on, more.all_meet);
              stops = more.stops;
              number = more.number;
            })
      ]

module _ (floats : Floats) (max_error_rate slo_factor : floats.Float) where
  pub Unmeasured : Level floats → Type 0
  Unmeasured level = truthy floats level.p95 ≡ false

  -- The p95 of the first level that has one, and not zero
  pub record Baseline (levels : List (Level floats)) (base : floats.Float) : Type 0 where
    pub before : List (Level floats)
    pub first : Level floats
    pub after : List (Level floats)
    pub split : levels ≡ before ++ (first ∷ after)
    pub unmeasured : All Unmeasured before
    pub measured : first.p95 ≡ some base
    pub nonzero : floats.is_zero base ≡ false

  truthy-some :
      (level : Level floats)
      → truthy floats level.p95 ≡ true
      → (base : floats.Float) × (level.p95 ≡ some base) × (floats.is_zero base ≡ false)
  truthy-some level e = elim (Option-cases level.p95) [
    | inl missing ↦ absurd (ground (arith, e, missing))
    | inr (base, there) ↦ (base, there, ground (arith, e, there))
  ]

  baseline-none :
      (levels : List (Level floats)) → baseline floats levels ≡ none → All Unmeasured levels
  unfolding baseline Unmeasured
  baseline-none [] e = tt
  baseline-none (level ∷ levels) e = elim (Bool-cases (truthy floats level.p95)) [
    | inl has_p95 ↦
        let (base, there, _) = truthy-some level has_p95 in
        absurd (ground (arith, e, has_p95, there))
    | inr has_none ↦ (has_none, baseline-none levels (rw has_none at e))
  ]

  baseline-some :
      (levels : List (Level floats)) {base : floats.Float}
      → baseline floats levels ≡ some base
      → Baseline levels base
  unfolding baseline Unmeasured
  baseline-some [] e = absurd (cc)
  baseline-some (level ∷ levels) {base} e = elim (Bool-cases (truthy floats level.p95)) [
    | inl has_p95 ↦
        let (b, there, nonzero) = truthy-some level has_p95 in
        let measured : level.p95 ≡ some base = rw has_p95 at e in
        record {
          before = [];
          first = level;
          after = levels;
          split = refl;
          unmeasured = tt;
          measured = measured;
          nonzero = ground (arith, measured, has_p95);
        }
    | inr has_none ↦
        let more = baseline-some levels (rw has_none at e) in
        record {
          before = level ∷ more.before;
          first = more.first;
          after = more.after;
          split = ap (λ l. level ∷ l) more.split;
          unmeasured = (has_none, more.unmeasured);
          measured = more.measured;
          nonzero = more.nonzero;
        }
  ]

  abbrev pub HasCapacity : List (Level floats) → Option ℕ × Option floats.Float → Type 0
  HasCapacity levels (users, limit) =
      (base : floats.Float) × Baseline levels base
      × (limit ≡ some (floats.times slo_factor base))
      × IsBest floats max_error_rate (floats.times slo_factor base) levels none users

  -- If no level has a p95 other than zero, there is neither a capacity nor a limit. Else the limit is
  -- `slo_factor` times the first such p95; all levels before some point have a p95 within it and an error rate
  -- within `max_error_rate`, the level at that point, if there is one, does not, and the capacity is the
  -- number of users of the last level before it.
  pub capacity-HasCapacity :
      (levels : List (Level floats))
      → (All Unmeasured levels × (capacity floats max_error_rate slo_factor levels ≡ (none, none)))
        ⊎ HasCapacity levels (capacity floats max_error_rate slo_factor levels)
  unfolding capacity
  capacity-HasCapacity levels = elim (Option-cases (baseline floats levels)) [
    | inl missing ↦ inl (baseline-none levels missing, rw (capacity, missing))
    | inr (base, there) ↦
        rw (capacity, there)
          (inr (
            base,
            baseline-some levels there,
            refl,
            best-IsBest floats max_error_rate (floats.times slo_factor base) levels none,
          ))
  ]
