-- ===== src/Jobs/Broker.antt =====
-- The queues of RabbitMQ and where a job is published (langgraph-python/app/platform/rabbitmq.py). The text of a
-- number is a parameter.
pub mod Delays
use Prim.Native.String.{◌++◌}
use agents_at_scale.Prelude.{
  ℕ, String, ◌+◌, ◌-◌, zero, suc, Option, none, some, List, [], ◌∷◌, ltb, if◌then◌else◌, length,
}
use agents_at_scale.Prelude.Int.{pos}
use agents_at_scale.Config.{Settings, retry_delays_ms}
use agents_at_scale.Jobs.Json.{Json, text, number, Members, no_members, member, null}
use agents_at_scale.Jobs.Platform.{Job}

-- A declared queue: messages that stay for its time are routed on.
pub record Queue : Type 0 where
  pub name : String
  pub message_ttl : Option ℕ
  pub dead_letter_routing_key : Option String

-- Python's indexing of a list, none out of range
pub get_elem? {ℓ} : {A : Type ℓ} → List A → ℕ → Option A
get_elem? [] i = none
get_elem? (x ∷ xs) zero = some x
get_elem? (x ∷ xs) (suc i) = get_elem? xs i

pub dead_queue : String → String
dead_queue queue = queue ++ ".dead"

-- `min(max(level, 1), count) - 1`
pub retry_index : ℕ → ℕ → ℕ
retry_index level count =
    let wanted = if ltb level 1 then 1 else level in
    let clamped = if ltb count wanted then count else wanted in clamped - 1

module _ (decimal : ℕ → String) where
  pub retry_queue : String → ℕ → String
  retry_queue queue level = queue ++ (".retry." ++ decimal level)

  -- The loop of `connect`, from a level on
  pub declare_retries : String → ℕ → List ℕ → List Queue
  unfolding retry_queue
  declare_retries queue level [] = []
  declare_retries queue level (delay_ms ∷ delays) =
      record {
        name = retry_queue queue level;
        message_ttl = some delay_ms;
        dead_letter_routing_key = some queue;
      }
      ∷ declare_retries queue (level + 1) delays

  -- `connect`: the retry queues of a configuration
  pub retry_queues : Settings → List Queue
  unfolding declare_retries
  retry_queues settings = declare_retries settings.rabbitmq_queue 1 (retry_delays_ms settings)

-- `retry`: the queue that takes a job; none raises, since there is no retry queue.
pub retry_target : List Queue → ℕ → Option Queue
unfolding get_elem? retry_index
retry_target [] level = none
retry_target queues level = get_elem? queues (retry_index level (length queues))
