-- ===== src/Jobs/Tests.antt =====
-- Runs of the worker on one chat message, in a calm world and in one with a broken broker.
use agents_at_scale.Prelude.{
  ℕ, String, ◌≡◌, ◌↔◌, ◌⊎◌, inl, inr, ◌<◌, ◌+◌, ◌*◌, ◌^◌, refl, true, false, All, Option, none,
  some, [], ◌∷◌,
}
use agents_at_scale.Prelude.Eq.{string_eq, nat_eq}
use agents_at_scale.Prelude.Int.{ℤ}
use agents_at_scale.Jobs.Json.{text, Json, null, object, Members, is_blank, is_space}
use agents_at_scale.Jobs.Request.{
  is_some, has_message, valid, validate_request, ChatRequest, chat_error, dump, require_selection,
  require_one_action,
}
use agents_at_scale.Jobs.Request.Agreement.{chat_error-dump, IsRequest, validate_request_iff}
use agents_at_scale.Jobs.Platform.{
  agent_run, completed, failed, published, Timing, mark_job_timing, set_job_status, Job, Call,
  claim_idempotency_key, release_idempotency_key, broker_publish, broker_retry, broker_dead_letter,
  finished, returned, World,
}
use agents_at_scale.Jobs.Worker.{WorkerOptions, action, consume}
use agents_at_scale.Jobs.Worker.Settlement.{settled, Settles, settled-consume}
use agents_at_scale.Jobs.Worker.Attempts.{Limited, consume-AllLimited}
use agents_at_scale.Jobs.Worker.Repeats.{RunsOpen, consume-RunsOpen}
use agents_at_scale.Jobs.Worker.Custody.{IsSafe, consume-IsSafe}
use agents_at_scale.Jobs.Worker.Conversation.{holds, release_failed, IsGuarded, consume-IsGuarded}
use agents_at_scale.Config.{retry_levels}
use agents_at_scale.Config.Tests.{default_settings}
use agents_at_scale.Jobs.Broker.{retry_index, retry_queues, retry_target}
use agents_at_scale.Jobs.Broker.Delays.{as_queue, retry_target-retry_queues}
use agents_at_scale.Jobs.Envelope.{body, parse_job, parse_job-body}
use agents_at_scale.Jobs.Publish.{queue, queue_claimed, publish_job, publish}
use agents_at_scale.Jobs.Endpoint.{
  FieldError, refusal, accepted, strip, error_detail, join_path, respond, key_or_none, header_key,
  model_validate, publish_request, publish_chat,
}
use agents_at_scale.Jobs.Endpoint.Answers.{Promised, publish_chat-Promised}

abbrev chat : ChatRequest
chat = record { user_id = "alice"; session_id = "s1"; message = some "hello"; resume = none }

abbrev id_text : ℕ → String
id_text n = "id"

abbrev amount_text : ℤ → String
amount_text n = "0.00"

abbrev payload : Members
payload = dump id_text amount_text chat

abbrev job : Job
job = record { id = "job-1"; payload = object payload; attempt = 0; error = none }

abbrev options : WorkerOptions
options = record { concurrency = 1; max_attempts = 3; lock_ttl_ms = 300000 }

-- Nothing fails, and nobody else is there.
abbrev calm : World
calm = record {
  raises = λ h c. none;
  stored_status = λ h id. none;
  lock_granted = λ h key token. true;
  key_owner = λ h key id. (id, true);
  agent = λ h c. finished none;
  now_ms = λ h. 5;
  new_id = λ h. "job-1";
}

abbrev is_publication : Call → Option String
is_publication (broker_publish _) = some "no connection"
is_publication (broker_retry _ _) = some "no connection"
is_publication (broker_dead_letter _) = some "no connection"
is_publication _ = none

abbrev broken : World
broken = record calm { raises = λ h c. is_publication c }

abbrev repeated : World
repeated = record calm {
  stored_status = λ h id. some completed;
  key_owner = λ h key id. ("job-0", false);
}

chat_accepted : chat_error chat ≡ none
unfolding chat_error require_selection require_one_action is_blank
chat_accepted = refl

chat_error-dump_example :
    (validate_request (object payload) ≡ valid payload)
    × (action calm options payload ≡ agent_run "alice" "s1" (text "hello"))
    × ((is_some chat.resume ≡ true) ⊎ (has_message chat.message ≡ true))
chat_error-dump_example = chat_error-dump id_text amount_text calm options chat chat_accepted

validate_request_iff_example :
    (validate_request (object payload) ≡ valid payload) ↔ IsRequest payload
validate_request_iff_example = validate_request_iff payload

broken-Settles : Settles broken
broken-Settles = record { takes_ack = λ h. refl; takes_nack = λ h requeue. refl }

settled-consume_example :
    (settled (consume broken options (some job) true []).1 ≡ 1)
    × ((consume broken options (some job) true []).0 ≡ returned tt)
unfolding settled
settled-consume_example = settled-consume broken options (some job) true [] broken-Settles

consume-AllLimited_example : All (Limited options job) (consume broken options (some job) true []).1
consume-AllLimited_example = consume-AllLimited broken options job true

consume-RunsOpen_example : RunsOpen calm job (consume calm options (some job) true []).1
consume-RunsOpen_example = consume-RunsOpen calm job options true

consume-IsSafe_example : IsSafe calm job (consume calm options (some job) true []).1
consume-IsSafe_example = consume-IsSafe calm options job true

consume-IsGuarded_example :
    ((key : String)
      → (holds calm key "job-1" (consume calm options (some job) true []).1 ≡ false)
        ⊎ (release_failed calm key "job-1" (consume calm options (some job) true []).1 ≡ true))
    × IsGuarded calm "job-1" (consume calm options (some job) true []).1
consume-IsGuarded_example = consume-IsGuarded calm options job true

abbrev fields : Json → FieldError ⊎ ChatRequest
fields (object _) = inr chat
fields _ = inl (record { type_name = "missing"; loc = "session_id" ∷ []; msg = "Field required" })

publish_chat-Promised_example :
    Promised id_text amount_text fields broken
      (object payload)
      (some " key ")
      []
      (publish_chat id_text amount_text fields broken (object payload) (some " key ") [])
publish_chat-Promised_example =
    publish_chat-Promised id_text amount_text fields broken (object payload) (some " key ") []

-- The key is stripped, and given up again when the broker fails.
key_given_up : publish_chat id_text amount_text fields broken (object payload) (some " key ") [] ≡ (
  refusal 500 "publish job failed",
  release_idempotency_key "key"
      ∷ set_job_status "job-1" failed
      ∷ broker_publish job
      ∷ mark_job_timing "job-1" Timing.published_ms 5
      ∷ set_job_status "job-1" published
      ∷ claim_idempotency_key "key" "job-1"
      ∷ [],
)
unfolding publish_chat publish_request model_validate respond key_or_none header_key strip is_blank
    is_space publish publish_job queue queue_claimed chat_error require_selection require_one_action
key_given_up = refl

named_twice :
    (publish_chat id_text amount_text fields repeated (object payload) (some "key") []).0
    ≡ accepted ("job-0", true)
unfolding publish_chat publish_request model_validate respond key_or_none header_key strip is_blank
    is_space publish publish_job queue queue_claimed chat_error require_selection require_one_action
named_twice = refl

missing_named :
    (publish_chat id_text amount_text fields calm null none []).0
    ≡ refusal 422 "session_id is required"
unfolding publish_chat publish_request model_validate respond error_detail join_path
missing_named = refl

abbrev digit : ℕ → String
digit n = "2"

retry_target-retry_queues_example :
    let i = retry_index 2 (retry_levels default_settings) in
    (retry_target (retry_queues digit default_settings) 2
      ≡ some (as_queue digit "agent_jobs" (i + 1) (1000 * 2 ^ i)))
    × (i < retry_levels default_settings)
    × ((i + 1 ≡ 2) ⊎ (2 < 1) ⊎ (retry_levels default_settings < 2))
retry_target-retry_queues_example = retry_target-retry_queues digit default_settings 2

abbrev failed_once : Job
failed_once = record job { attempt = 1; error = some "no connection" }

parse_job-body_example : parse_job (object (body failed_once)) ≡ some failed_once
parse_job-body_example = parse_job-body failed_once refl
