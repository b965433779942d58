-- ===== src/Bench/Report.antt =====
-- `capacity` of bench/report.py. Python's floats are a parameter: a type with what the function uses of it.
pub mod Capacity
use agents_at_scale.Prelude.{
  ℕ, Bool, true, false, not, ◌||◌, Option, none, some, List, [], ◌∷◌, if◌then◌else◌,
}

pub record Floats : Type 1 where
  pub Float : Type 0
  pub zero : Float
  pub is_zero : Float → Bool
  pub times : Float → Float → Float
  -- `x > y`
  pub exceeds : Float → Float → Bool

module _ (floats : Floats) where
  -- One result of the load generator: its `users`, `conversation_ms["p95"]` and `error_rate`.
  pub record Level : Type 0 where
    pub users : ℕ
    pub p95 : Option floats.Float
    pub error_rate : Option floats.Float

  -- `if level["conversation_ms"]["p95"]`
  abbrev pub truthy : Option floats.Float → Bool
  truthy none = false
  truthy (some x) = not (floats.is_zero x)

  -- `level["error_rate"] or 0`
  abbrev pub or_zero : Option floats.Float → floats.Float
  or_zero none = floats.zero
  or_zero (some x) = if floats.is_zero x then floats.zero else x

  unfoldable pub baseline : List Level → Option floats.Float
  baseline [] = none
  baseline (level ∷ levels) =
      let rest = baseline levels in if truthy level.p95 then level.p95 else rest

  module _ (max_error_rate : floats.Float) where
    -- Where the loop breaks
    unfoldable pub is_over : floats.Float → Level → Bool
    is_over limit level = elim level.p95 [
      | none ↦ true
      | some p95 ↦
          floats.exceeds (or_zero level.error_rate) max_error_rate || floats.exceeds p95 limit
    ]

    unfoldable pub best : floats.Float → List Level → Option ℕ → Option ℕ
    unfolding is_over
    best limit [] so_far = so_far
    best limit (level ∷ levels) so_far =
        let rest = best limit levels (some level.users) in
        if is_over limit level then so_far else rest

    unfoldable pub capacity : floats.Float → List Level → Option ℕ × Option floats.Float
    unfolding baseline best
    capacity slo_factor levels = elim (baseline levels) [
      | none ↦ (none, none)
      | some base ↦
          (best (floats.times slo_factor base) levels none, some (floats.times slo_factor base))
    ]
