-- ===== src/Jobs/Publish.antt =====
-- `JobService.publish` (langgraph-python/app/jobs/service.py).
pub mod Outcomes
use agents_at_scale.Prelude.{ℕ, String, Bool, true, false, Option, none, some, ◌∷◌, if◌then◌else◌}
use agents_at_scale.Prelude.Eq.{◌==◌, string_eq}
use agents_at_scale.Jobs.Json.{Json}
use agents_at_scale.Jobs.Platform.{
  published, failed, Timing, Job, set_job_status, mark_job_timing, claim_idempotency_key,
  release_idempotency_key, broker_publish, World, Exec, ◌>>=◌, ◌>>◌, pure, raise, try_except, call,
  ask, now,
}

module _ (w : World) where
  -- The broker's failure leaves the job with a final status.
  abbrev pub send : Job → Exec (Unit {0})
  send job =
      try_except (call w (broker_publish job))
        λ error. call w (set_job_status job.id failed) >> raise error

  unfoldable pub queue : Job → Exec (Unit {0})
  queue job = do
    call w (set_job_status job.id published)
    at ← now w
    call w (mark_job_timing job.id Timing.published_ms at)
    send job

  -- `if idempotency_key`: an empty key is none.
  unfoldable pub queue_claimed : Job → String → Exec (String × Bool)
  unfolding queue
  queue_claimed job key = do
    try_except (queue job) (λ error. call w (release_idempotency_key key) >> raise error)
    pure (job.id, false)

  unfoldable pub publish_job : Job → Option String → Exec (String × Bool)
  unfolding queue queue_claimed
  publish_job job none = queue job >> pure (job.id, false)
  publish_job job (some key) =
      if key == ""
      then queue job >> pure (job.id, false)
      else ask w (claim_idempotency_key key job.id) (λ h. w.key_owner h key job.id) >>= λ owner.
          if owner.1 then queue_claimed job key else pure (owner.0, true)

  -- `publish`
  unfoldable pub publish : Json → Option String → Exec (String × Bool)
  unfolding publish_job
  publish payload key h =
      publish_job (record { id = w.new_id h; payload = payload; attempt = 0; error = none }) key h
