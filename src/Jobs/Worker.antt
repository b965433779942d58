-- ===== src/Jobs/Worker.antt =====
-- The handling of a delivered job: `consume` and what it calls, of `JobService`
-- (langgraph-python/app/jobs/service.py).
pub mod Discipline
pub mod Rules
pub mod Settlement
pub mod Custody
pub mod Attempts
pub mod Conversation
pub mod Repeats
use Prim.Native.String.{◌++◌}
use agents_at_scale.Prelude.{
  ℕ, String, Bool, true, false, ◌+◌, Option, none, some, leb, if◌then◌else◌,
}
use agents_at_scale.Prelude.Eq.{◌==◌, string_eq}
use agents_at_scale.Jobs.Json.{Json, null, text, object, Members, no_members, member, get, has}
use agents_at_scale.Jobs.Request.{valid, invalid, validate_request}
use agents_at_scale.Jobs.Platform.{
  JobStatus, published, processing, waiting_for_confirmation, completed, failed, retrying, Timing,
  Job, Call, get_job_status, set_job_status, set_job_metadata, mark_job_timing, set_job_timing,
  acquire_conversation_lock, release_conversation_lock, broker_retry, broker_dead_letter, ack, nack,
  agent_run, agent_resume, Final, AgentRun, interrupted, finished, no_pending_input, raised, World,
  Exec, ◌>>=◌, ◌>>◌, pure, try_except, attempt, finally, call, ask, run_agent, now,
}

pub record WorkerOptions : Type 0 where
  pub concurrency : ℕ
  pub max_attempts : ℕ
  pub lock_ttl_ms : ℕ

unfoldable pub is_terminal : Option JobStatus → Bool
is_terminal (some completed) = true
is_terminal (some waiting_for_confirmation) = true
is_terminal (some failed) = true
is_terminal _ = false

-- `payload[key]` of a payload that `validate_request` has passed
abbrev text_of : Json → String
text_of (text s) = s
text_of _ = ""

abbrev pub user_of : Members → String
user_of request = text_of (get "user_id" request)

abbrev pub session_of : Members → String
session_of request = text_of (get "session_id" request)

abbrev pub conversation : String → String → String
conversation user_id session_id = user_id ++ ":" ++ session_id

abbrev members_of : Json → Members
members_of (object members) = members
members_of _ = no_members

-- `value.get(key, default)`
abbrev get_or : String → Json → Members → Json
get_or key default members = if has key members then get key members else default

metadata : String → String → Members → Members
metadata user_id session_id value = member "user_id" (text user_id) (
    member "session_id" (text session_id) (
      member "message" (get_or "message" (text "") value)
        (member "evaluation" (get "evaluation" value) no_members)))

module _ (w : World) (options : WorkerOptions) where
  -- `_delay`: to the broker's retry queue, and if that fails back to the main one.
  pub delay : Job → ℕ → Exec (Unit {0})
  delay job level = do
    sent ← attempt (call w (broker_retry job level))
    call w (if sent then ack else nack true)

  -- `_dead_letter`
  pub dead_letter : Job → String → Exec (Unit {0})
  dead_letter job error = do
    _ ← attempt (do
      call w (set_job_status job.id failed)
      at ← now w
      call w (set_job_timing job.id Timing.finished_ms at))
    sent ← attempt (call w (broker_dead_letter (record job { error = some error })))
    call w (if sent then ack else nack false)

  -- `_retry`
  reschedule : Job → Exec (Unit {0})
  unfolding delay
  reschedule job = do _ ← attempt (call w (set_job_status job.id retrying)); delay job job.attempt

  pub retry : Job → String → Exec (Unit {0})
  unfolding reschedule dead_letter
  retry job error =
      let next = record job { attempt = job.attempt + 1 } in
      if leb options.max_attempts next.attempt then dead_letter next error else reschedule next

  -- The end of `_finish`
  complete : Job → JobStatus → Exec (Unit {0})
  complete job status = do
    at ← now w
    call w (set_job_timing job.id Timing.finished_ms at)
    call w (set_job_status job.id status)
    call w ack

  finish_final : Job → Option Final → Exec (Unit {0})
  unfolding dead_letter complete
  finish_final job none = complete job completed
  finish_final job (some final) =
      if final.status == "failed" then dead_letter job final.message else complete job completed

  finish_interrupted : Job → String → String → Members → Exec (Unit {0})
  unfolding metadata complete
  finish_interrupted job user_id session_id value = do
    call w (set_job_metadata job.id (metadata user_id session_id value))
    complete job waiting_for_confirmation

  -- What the worker does after the agent's run: `_finish`, or one of the two handlers.
  pub finish : Job → String → String → AgentRun → Exec (Unit {0})
  unfolding finish_interrupted finish_final retry dead_letter
  finish job user_id session_id (interrupted value) =
      finish_interrupted job user_id session_id (members_of value)
  finish job user_id session_id (finished final) = finish_final job final
  finish job user_id session_id (no_pending_input error) = dead_letter job error
  finish job user_id session_id (raised error) = retry job error

  -- The call of the agent
  abbrev pub action : Members → Call
  action request =
      if has "resume" request
      then agent_resume (user_of request) (session_of request) (get "resume" request)
      else agent_run (user_of request) (session_of request) (get "message" request)

  run_locked : Job → Members → Exec (Unit {0})
  unfolding finish
  run_locked job request = do
    call w (set_job_status job.id processing)
    at ← now w
    call w (mark_job_timing job.id Timing.started_ms at)
    call w (set_job_timing job.id Timing.attempts (job.attempt + 1))
    result ← run_agent w (action request)
    finish job (user_of request) (session_of request) result

  -- One job per conversation at a time
  in_conversation : Job → Members → String → Exec (Unit {0})
  unfolding run_locked delay
  in_conversation job request key = do
    granted ←
        ask w (acquire_conversation_lock key job.id options.lock_ttl_ms)
          (λ h. w.lock_granted h key job.id)
    if granted
        then finally (run_locked job request) (call w (release_conversation_lock key job.id))
        else delay job 1

  -- `_process` of a job with no final status; `ready` unless the service has no runner
  pub handle : Job → Bool → Exec (Unit {0})
  unfolding in_conversation dead_letter
  handle job ready = elim (validate_request job.payload) [
    | invalid error ↦ dead_letter job error
    | valid request ↦
        if ready
        then in_conversation job request (conversation (user_of request) (session_of request))
        else dead_letter job "agent runner is required"
  ]

  -- `_process`
  pub process : Job → Bool → Exec (Unit {0})
  unfolding handle is_terminal
  process job ready = do
    status ← ask w (get_job_status job.id) (λ h. w.stored_status h job.id)
    if is_terminal status then call w ack else handle job ready

  -- `consume`; the envelope is none if its body is no JSON of a job
  pub consume : Option Job → Bool → Exec (Unit {0})
  unfolding process retry
  consume none ready = call w (nack false)
  consume (some job) ready =
      if job.id == "" then call w (nack false) else try_except (process job ready) (retry job)
