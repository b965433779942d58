-- ===== src/Bench.antt =====
-- The load benchmark: how bench/loadgen.py gives out the seeded reservations and the users to its processes.
-- An index is a natural number, as is every number on the command line.
pub mod Sharing
pub mod Report
mod Tests
use agents_at_scale.Prelude.{
  ℕ, zero, suc, ◌+◌, ◌/◌, ◌%◌, Option, none, some, List, [], ◌∷◌, ltb, if◌then◌else◌,
}

-- The arguments that a shard reads.
pub record Args : Type 0 where
  pub first_index : ℕ
  pub seeded : ℕ

pub record LoadGenerator : Type 0 where
  pub args : Args
  pub next_index : ℕ
  pub step : ℕ

-- `LoadGenerator.__init__`
unfoldable pub new_generator : Args → ℕ → ℕ → LoadGenerator
new_generator args shard shards = record {
  args = args;
  next_index = args.first_index + shard;
  step = shards;
}

-- `take_index`; none is `SeedsExhausted`.
unfoldable pub take_index : LoadGenerator → Option ℕ × LoadGenerator
take_index g =
    if ltb g.args.seeded g.next_index
    then (none, g)
    else (some g.next_index, record g { next_index = g.next_index + g.step })

-- What the conversation that asks after `n` others of the same process gets.
unfoldable pub index_at : ℕ → LoadGenerator → Option ℕ
unfolding take_index
index_at zero g = (take_index g).0
index_at (suc n) g = index_at n (take_index g).1

-- The users of one process, as `run_level` sends them.
unfoldable pub share : ℕ → ℕ → ℕ → ℕ
share users shards shard = users / shards + (if ltb shard (users % shards) then 1 else 0)

-- The loop over the pipes, from a shard on.
unfoldable pub shares_from : ℕ → ℕ → ℕ → ℕ → List ℕ
unfolding share
shares_from users shards shard zero = []
shares_from users shards shard (suc rest) =
    share users shards shard ∷ shares_from users shards (suc shard) rest

unfoldable pub shares : ℕ → ℕ → List ℕ
unfolding shares_from
shares users shards = shares_from users shards 0 shards
