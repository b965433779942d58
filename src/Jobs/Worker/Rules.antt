-- ===== src/Jobs/Worker/Rules.antt =====
-- One walk through the worker for all that holds of its calls: an assertion that every call keeps, one that a
-- job which is handed on has reached, and one of the settled delivery.
use agents_at_scale.Prelude.{
  ℕ, String, ◌≡◌, inl, inr, refl, Bool, true, false, ◌+◌, arith, Option, none, some, leb,
  if◌then◌else◌, Bool-cases,
}
use agents_at_scale.Prelude.Eq.{◌==◌, string_eq}
use agents_at_scale.Jobs.Json.{Members, has, get}
use agents_at_scale.Jobs.Request.{Checked, valid, invalid, validate_request}
use agents_at_scale.Jobs.Platform.{
  JobStatus, processing, waiting_for_confirmation, completed, failed, retrying, Timing, Job, Call,
  get_job_status, set_job_status, set_job_metadata, mark_job_timing, set_job_timing,
  release_conversation_lock, broker_retry, broker_dead_letter, ack, nack, agent_run, agent_resume,
  AgentRun, interrupted, finished, no_pending_input, raised, History, World, Exec, ◌>>=◌, attempt,
  finally, call, run_agent, now,
}
use agents_at_scale.Jobs.Platform.Triples.{
  Triple, >>=-Triple, finally-Triple, weaken, try_except-Triple, attempt-Triple, ask-Triple,
  call-Triple, call-Keeps,
}
use agents_at_scale.Jobs.Worker.{
  WorkerOptions, is_terminal, conversation, user_of, session_of, delay, dead_letter, reschedule,
  retry, complete, finish_final, finish_interrupted, finish, action, run_locked, in_conversation,
  handle, process, consume,
}
use agents_at_scale.Jobs.Worker.Discipline.{
  IsScheduled, IsOther, IsEnd, IsHanding, Discipline, Entry,
}

module _ (w : World) (options : WorkerOptions) (job : Job) {key : Option String}
    {P R D X : History → Type 0} (d : Discipline w options job key P R D X) where
  neutral : (c : Call) → IsOther options job key c → Triple P (call w c) (λ _. P) P
  neutral c o = call-Keeps w c λ h p. d.other c h o p

  decided :
      (requeue sent : Bool)
      → Triple (if sent then R else P) (call w (if sent then ack else nack requeue)) (λ _. D) X
  decided requeue true = d.acked
  decided requeue false = d.nacked requeue

  -- A publication, and the settlement that it calls for
  settle :
      (c : Call) (requeue : Bool)
      → IsOther options job key c
      → IsHanding job c
      → Triple P
          (attempt (call w c) >>= λ sent. call w (if sent then ack else nack requeue))
          (λ _. D)
          X
  settle c requeue o n =
      >>=-Triple
        (attempt-Triple {Q = λ sent. if sent then R else P}
          (call-Triple w c (λ h p e. d.hand c h o n p e) (λ h p. d.other c h o p)))
        (decided requeue)

  now-Triple : {Q : History → Type 0} → Triple Q (now w) (λ _. Q) Q
  now-Triple = record { run = λ h q. q }

  delay-Triple :
      (next : Job) (level : ℕ)
      → next.id ≡ job.id
      → IsScheduled options job next level
      → Triple P (delay w options next level) (λ _. D) X
  unfolding delay
  delay-Triple next level same scheduled = settle (broker_retry next level) true scheduled same

  dead_letter-Triple :
      (next : Job) (error : String)
      → next.id ≡ job.id
      → Triple P (dead_letter w options next error) (λ _. D) X
  unfolding dead_letter
  dead_letter-Triple next error same =
      >>=-Triple {Q = λ _. P}
        (attempt-Triple (
          >>=-Triple {Q = λ _. P} (neutral (set_job_status next.id failed) tt) (λ _.
            >>=-Triple {Q = λ _. P} now-Triple
              λ at. neutral (set_job_timing next.id Timing.finished_ms at) tt)))
        (λ _. settle (broker_dead_letter (record next { error = some error })) false tt same)

  pub retry-Triple : (error : String) → Triple P (retry w options job error) (λ _. D) X
  unfolding retry reschedule
  retry-Triple error = elim (Bool-cases (leb options.max_attempts (job.attempt + 1))) [
    | inl full ↦ rw full (dead_letter-Triple (record job { attempt = job.attempt + 1 }) error refl)
    | inr left ↦ rw left (
        >>=-Triple {Q = λ _. P} (attempt-Triple (neutral (set_job_status job.id retrying) tt)) (λ _.
          delay-Triple (record job { attempt = job.attempt + 1 }) (job.attempt + 1) refl
            (inr (refl, refl, refl, ground arith))))
  ]

  inner : {m : Exec (Unit {0})} → Triple P m (λ _. D) X → Triple P m (λ _. D) P
  inner t = weaken (λ _ h q. q) d.left t

  complete-Triple :
      (status : JobStatus) → IsEnd status → Triple P (complete w options job status) (λ _. D) P
  unfolding complete
  complete-Triple status end = >>=-Triple {Q = λ _. P} now-Triple λ at.
      >>=-Triple {Q = λ _. P} (neutral (set_job_timing job.id Timing.finished_ms at) tt) λ _.
        >>=-Triple {Q = λ _. R}
          (call-Triple w (set_job_status job.id status)
            (λ h p e. d.hand (set_job_status job.id status) h tt (refl, end) p e)
            (λ h p. d.other (set_job_status job.id status) h tt p))
          (λ _. weaken (λ _ h q. q) d.left d.acked)

  finish-Triple :
      (user_id session_id : String) (result : AgentRun)
      → Triple P (finish w options job user_id session_id result) (λ _. D) P
  unfolding finish finish_final finish_interrupted
  finish-Triple user_id session_id (interrupted value) =
      >>=-Triple {Q = λ _. P} (neutral (set_job_metadata job.id _) tt)
        λ _. complete-Triple waiting_for_confirmation tt
  finish-Triple user_id session_id (finished none) = complete-Triple completed tt
  finish-Triple user_id session_id (finished (some final)) =
      elim (Bool-cases (final.status == "failed")) [
        | inl e ↦ rw e (inner (dead_letter-Triple job final.message refl))
        | inr e ↦ rw e (complete-Triple completed tt)
      ]
  finish-Triple user_id session_id (no_pending_input error) =
      inner (dead_letter-Triple job error refl)
  finish-Triple user_id session_id (raised error) = inner (retry-Triple error)

  agent_Triple :
      (request : Members)
      → some (conversation (user_of request) (session_of request)) ≡ key
      → Triple P (run_agent w (action w options request)) (λ _. P) P
  agent_Triple request same = elim (Bool-cases (has "resume" request)) [
    | inl e ↦ rw e (record {
      run = λ h p.
          d.other (agent_resume (user_of request) (session_of request) (get "resume" request)) h
            same p;
    })
    | inr e ↦ rw e (record {
      run = λ h p.
          d.other (agent_run (user_of request) (session_of request) (get "message" request)) h same
            p;
    })
  ]

  run_locked-Triple :
      (request : Members)
      → some (conversation (user_of request) (session_of request)) ≡ key
      → Triple P (run_locked w options job request) (λ _. D) P
  unfolding run_locked
  run_locked-Triple request same =
      >>=-Triple {Q = λ _. P} (neutral (set_job_status job.id processing) tt) λ _.
        >>=-Triple {Q = λ _. P} now-Triple λ at.
          >>=-Triple {Q = λ _. P} (neutral (mark_job_timing job.id Timing.started_ms at) tt) λ _.
            >>=-Triple {Q = λ _. P}
              (neutral (set_job_timing job.id Timing.attempts (job.attempt + 1)) tt)
              λ _.
                >>=-Triple {Q = λ _. P} (agent_Triple request same)
                  (finish-Triple (user_of request) (session_of request))

module _ (w : World) (options : WorkerOptions) (job : Job) {P R D X : History → Type 0}
    {P' R' D' X' : String → History → Type 0} (d : Discipline w options job none P R D X)
    (within : (key : String)
      → Discipline w options job (some key) (P' key) (R' key) (D' key) (X' key))
    (entry : (key : String) → Entry w options job key P D (P' key) (D' key)) where
  abbrev key_of : Members → String
  key_of request = conversation (user_of request) (session_of request)

  in_conversation-Triple :
      (request : Members)
      → Triple P
          (in_conversation w options job request
            (conversation (user_of request) (session_of request)))
          (λ _. D)
          P
  unfolding in_conversation
  in_conversation-Triple request = >>=-Triple (entry (key_of request)).enter granted_Triple
    where
      granted_Triple :
          (granted : Bool)
          → Triple
              (if granted then P' (key_of request) else P)
              (if granted
                then finally
                    (run_locked w options job request)
                    (call w (release_conversation_lock (key_of request) job.id))
                else delay w options job 1)
              (λ _. D)
              P
      granted_Triple true =
          finally-Triple (run_locked-Triple w options job (within (key_of request)) request refl)
            (λ _. (entry (key_of request)).leave) (entry (key_of request)).leave_raised
      granted_Triple false =
          inner w options job d (delay-Triple w options job d job 1 refl (inl (refl, refl)))

  pub handle-Triple : (ready : Bool) → Triple P (handle w options job ready) (λ _. D) P
  unfolding handle
  handle-Triple ready = go (validate_request job.payload)
    where
      go :
          (checked : Checked)
          → Triple P
              (elim checked [
                | invalid error ↦ dead_letter w options job error
                | valid request ↦
                    if ready
                    then in_conversation w options job request
                        (conversation (user_of request) (session_of request))
                    else dead_letter w options job "agent runner is required"
              ])
              (λ _. D)
              P
      go (invalid error) = inner w options job d (dead_letter-Triple w options job d job error refl)
      go (valid request) =
          elim ready
            as (λ b.
              Triple P
                (if b
                  then in_conversation w options job request
                      (conversation (user_of request) (session_of request))
                  else dead_letter w options job "agent runner is required")
                (λ _. D) P) [
                  | true ↦ in_conversation-Triple request
                  | false ↦
                      inner w options job d
                        (dead_letter-Triple w options job d job "agent runner is required" refl)
                ]

  process-Triple : (ready : Bool) → Triple P (process w options job ready) (λ _. D) P
  unfolding process
  process-Triple ready =
      >>=-Triple {Q = λ status h. if is_terminal status then R h else P h}
        (ask-Triple w (get_job_status job.id) (λ h. w.stored_status h job.id)
          (λ h p e. elim (Bool-cases (is_terminal (w.stored_status h job.id))) [
            | inl t ↦ rw t (d.stored h p e t)
            | inr t ↦ rw t (d.other (get_job_status job.id) h tt p)
          ])
          (λ h p. d.other (get_job_status job.id) h tt p))
        (λ status. elim (Bool-cases (is_terminal status)) [
          | inl t ↦ rw t (weaken (λ _ h q. q) d.left d.acked)
          | inr t ↦ rw t (handle-Triple ready)
        ])

  -- What every call keeps holds when the job is handled, and the delivery is settled unless an error is left.
  pub consume-Triple : (ready : Bool) → Triple P (consume w options (some job) ready) (λ _. D) X
  unfolding consume
  consume-Triple ready = elim (Bool-cases (job.id == "")) [
    | inl e ↦ rw e (d.nacked false)
    | inr e ↦ rw e (try_except-Triple (process-Triple ready) (retry-Triple w options job d))
  ]
