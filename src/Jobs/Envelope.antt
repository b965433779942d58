-- ===== src/Jobs/Envelope.antt =====
-- The queued text of a job: `RabbitMQ._publish` (langgraph-python/app/platform/rabbitmq.py) and the reading of it in
-- `JobService.consume` (langgraph-python/app/jobs/service.py).
use agents_at_scale.Prelude.{
  ℕ, String, ◌≡◌, refl, Bool, true, false, ◌&&◌, ◌||◌, Option, none, some, zero, if◌then◌else◌,
}
use agents_at_scale.Prelude.Eq.{◌==◌, string_eq}
use agents_at_scale.Prelude.Int.{pos}
use agents_at_scale.Jobs.Json.{
  Json, null, number, text, object, Members, no_members, member, get, has, is_null,
}
use agents_at_scale.Jobs.Platform.{Job}

error_json : Option String → Json
error_json none = null
error_json (some error) = text error

-- A field that is `None` is left out.
abbrev kept : String → Json → Members → Members
kept key value rest = if is_null value then rest else member key value rest

-- `asdict(job)` without what is None
pub body : Job → Members
unfolding error_json
body job = kept "id" (text job.id) (
    kept "payload" job.payload (
      kept "attempt" (number (pos job.attempt) 0) (kept "error" (error_json job.error) no_members)))

is_field : String → Bool
is_field name = name == "id" || name == "payload" || name == "attempt" || name == "error"

only_fields : Members → Bool
unfolding is_field
only_fields no_members = true
only_fields (member name value rest) = is_field name && only_fields rest

read_attempt : Bool → Json → Option ℕ
read_attempt false value = some 0
read_attempt true (number (pos n) zero) = some n
read_attempt true _ = none

read_error : Json → Option (Option String)
read_error null = some none
read_error (text error) = some (some error)
read_error _ = none

read_job : Json → Json → Option ℕ → Option (Option String) → Option Job
read_job (text id) payload (some attempt) (some error) =
    some (record { id = id; payload = payload; attempt = attempt; error = error })
read_job _ _ _ _ = none

-- `Job(**data)` of what was parsed; a field of another type than the class says is not read here.
pub parse_job : Json → Option Job
unfolding only_fields read_attempt read_error read_job
parse_job (object fields) =
    if only_fields fields && has "id" fields && has "payload" fields
    then read_job (get "id" fields) (get "payload" fields)
        (read_attempt (has "attempt" fields) (get "attempt" fields))
        (read_error (get "error" fields))
    else none
parse_job _ = none

parse_job-parts :
    (id : String) (payload : Json) (attempt : ℕ) (error : Option String)
    → is_null payload ≡ false
    → parse_job
        (object (body (record { id = id; payload = payload; attempt = attempt; error = error })))
      ≡ some (record { id = id; payload = payload; attempt = attempt; error = error })
unfolding parse_job body only_fields is_field read_attempt read_error read_job error_json get has
parse_job-parts id payload attempt none given = rw given refl
parse_job-parts id payload attempt (some e) given = rw given refl

-- The worker reads back the job that was queued, its count of attempts and its error included, if it has a payload.
pub parse_job-body :
    (job : Job) → is_null job.payload ≡ false → parse_job (object (body job)) ≡ some job
parse_job-body job given = parse_job-parts job.id job.payload job.attempt job.error given
