-- ===== src/Bench/Tests.antt =====
-- Four processes and ten users, and a run of five levels (bench/loadgen.py, bench/report.py).
use agents_at_scale.Prelude.{
  ℕ, ◌≡◌, ◌↔◌, ◌⊎◌, ◌+◌, ◌-◌, ◌*◌, ◌/◌, ◌%◌, ◌≤◌, refl, none, some, List, [], ◌∷◌, All, ltb,
  nat_beq, arith,
}
use agents_at_scale.Bench.{Args, new_generator, take_index, index_at, share, shares_from, shares}
use agents_at_scale.Bench.Sharing.{index_at_iff, sum, shares-Even}
use agents_at_scale.Bench.Report.{Floats, Level, baseline, is_over, best, capacity}
use agents_at_scale.Bench.Report.Capacity.{Unmeasured, HasCapacity, capacity-HasCapacity}

abbrev args : Args
args = record { first_index = 1; seeded = 12 }

third_of_second : index_at 2 (new_generator args 1 4) ≡ some 10
unfolding index_at take_index new_generator
third_of_second = refl

used_up : index_at 3 (new_generator args 1 4) ≡ none
unfolding index_at take_index new_generator
used_up = refl

index_at_iff_example :
    (index_at 2 (new_generator args 1 4) ≡ some 10)
    ↔ ((1 ≤ 10) × (10 ≤ 12) × ((10 - 1) % 4 ≡ 1) × ((10 - 1) / 4 ≡ 2))
index_at_iff_example = index_at_iff args 4 1 (omega arith) 2 10

ten_users : shares 10 4 ≡ 3 ∷ 3 ∷ 2 ∷ 2 ∷ []
unfolding shares shares_from share
ten_users = refl

shares-Even_example :
    (sum (shares 10 4) ≡ 10) × All (λ k. (10 / 4 ≤ k) × (k ≤ 10 / 4 + 1)) (shares 10 4)
shares-Even_example = shares-Even 10 4 (omega arith)

-- Milliseconds, and errors in a thousand
abbrev whole : Floats
whole = record {
  Float = ℕ;
  zero = 0;
  is_zero = λ x. nat_beq x 0;
  times = λ x y. x * y;
  exceeds = λ x y. ltb y x;
}

abbrev levels : List (Level whole)
levels =
    record { users = 1; p95 = none; error_rate = some 0 }
    ∷ record { users = 2; p95 = some 100; error_rate = some 0 }
    ∷ record { users = 10; p95 = some 150; error_rate = some 5 }
    ∷ record { users = 25; p95 = some 180; error_rate = some 20 }
    ∷ record { users = 50; p95 = some 190; error_rate = some 0 }
    ∷ []

-- Without a p95 the first level ends the search.
nothing_reached : capacity whole 10 2 levels ≡ (none, some 200)
unfolding capacity baseline best is_over
nothing_reached = refl

abbrev measured : List (Level whole)
measured =
    record { users = 2; p95 = some 100; error_rate = some 0 }
    ∷ record { users = 10; p95 = some 150; error_rate = some 5 }
    ∷ record { users = 25; p95 = some 180; error_rate = some 20 }
    ∷ record { users = 50; p95 = some 190; error_rate = some 0 }
    ∷ []

-- A level with too many errors hides the next one, which meets the goal.
later_level_hidden : capacity whole 10 2 measured ≡ (some 10, some 200)
unfolding capacity baseline best is_over
later_level_hidden = refl

capacity-HasCapacity_example :
    (All (Unmeasured whole 10 2) measured × (capacity whole 10 2 measured ≡ (none, none)))
    ⊎ HasCapacity whole 10 2 measured (capacity whole 10 2 measured)
capacity-HasCapacity_example = capacity-HasCapacity whole 10 2 measured
