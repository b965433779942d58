-- ===== src/Jobs/Worker/Discipline.antt =====
-- What an assertion has to keep for a walk through the worker (langgraph-python/app/jobs/service.py).
use agents_at_scale.Prelude.{
  ℕ, String, ◌≡◌, ◌⊎◌, ◌<◌, Bool, true, false, ◌+◌, Option, none, some, ◌∷◌, if◌then◌else◌,
}
use agents_at_scale.Prelude.Eq.{string_eq}
use agents_at_scale.Jobs.Platform.{
  JobStatus, waiting_for_confirmation, completed, Job, Call, get_job_status, set_job_status,
  acquire_conversation_lock, release_conversation_lock, broker_retry, broker_dead_letter, ack, nack,
  agent_run, agent_resume, History, World, call, ask,
}
use agents_at_scale.Jobs.Platform.Triples.{Triple, ask-Triple, call-Keeps}
use agents_at_scale.Jobs.Worker.{WorkerOptions, is_terminal, conversation}

-- A job goes to the retry queue with the attempts it had, because its conversation is busy, or with one more,
-- as long as that leaves another attempt.
abbrev pub IsScheduled : WorkerOptions → Job → Job → ℕ → Type 0
IsScheduled options job next level =
    (next ≡ job) × (level ≡ 1)
    ⊎ (next.id ≡ job.id)
      × (next.attempt ≡ job.attempt + 1)
      × (level ≡ next.attempt)
      × (next.attempt < options.max_attempts)

-- A call that neither settles the delivery nor touches a lock; the agent runs in the conversation of the key, if any.
abbrev pub IsOther : WorkerOptions → Job → Option String → Call → Type 0
IsOther options job key (broker_retry next level) = IsScheduled options job next level
IsOther options job key (agent_run user_id session_id message) =
    some (conversation user_id session_id) ≡ key
IsOther options job key (agent_resume user_id session_id answer) =
    some (conversation user_id session_id) ≡ key
IsOther options job key ack = ⊥
IsOther options job key (nack requeue) = ⊥
IsOther options job key (acquire_conversation_lock other token ttl_ms) = ⊥
IsOther options job key (release_conversation_lock other token) = ⊥
IsOther options job key _ = Unit

abbrev pub IsEnd : JobStatus → Type 0
IsEnd completed = Unit
IsEnd waiting_for_confirmation = Unit
IsEnd _ = ⊥

-- A call after which the job is no longer the delivery's.
abbrev pub IsHanding : Job → Call → Type 0
IsHanding job (broker_retry next level) = next.id ≡ job.id
IsHanding job (broker_dead_letter next) = next.id ≡ job.id
IsHanding job (set_job_status id status) = (id ≡ job.id) × IsEnd status
IsHanding job _ = ⊥

-- A call that takes or gives back a lock.
abbrev pub IsLocking : Call → Type 0
IsLocking (acquire_conversation_lock key token ttl_ms) = Unit
IsLocking (release_conversation_lock key token) = Unit
IsLocking _ = ⊥

pub record Discipline (w : World) (options : WorkerOptions) (job : Job) (key : Option String)
    (P R D X : History → Type 0) : Type 0 where
  pub other : (c : Call) (h : History) → IsOther options job key c → P h → P (c ∷ h)
  pub hand :
      (c : Call) (h : History)
      → IsOther options job key c
      → IsHanding job c
      → P h
      → w.raises h c ≡ none
      → R (c ∷ h)
  pub stored :
      (h : History)
      → P h
      → w.raises h (get_job_status job.id) ≡ none
      → is_terminal (w.stored_status h job.id) ≡ true
      → R (get_job_status job.id ∷ h)
  -- what an error leaves that comes from the settlement itself
  pub left : (h : History) → X h → P h
  pub acked : Triple R (call w ack) (λ _. D) X
  pub nacked : (requeue : Bool) → Triple P (call w (nack requeue)) (λ _. D) X

-- Taking the lock leads to assertions of the conversation, and giving it back leads out of them.
pub record Entry (w : World) (options : WorkerOptions) (job : Job) (key : String)
    (P D P' D' : History → Type 0) : Type 0 where
  pub enter :
      Triple P
        (ask w
          (acquire_conversation_lock key job.id options.lock_ttl_ms)
          (λ h. w.lock_granted h key job.id))
        (λ granted. if granted then P' else P)
        P
  pub leave : Triple D' (call w (release_conversation_lock key job.id)) (λ _. D) D
  pub leave_raised : Triple P' (call w (release_conversation_lock key job.id)) (λ _. P) P

pub either :
    (P : History → Type 0) (granted : Bool) (h : History) → P h → (if granted then P else P) h
either P true h p = p
either P false h p = p

-- Locks that nothing is asserted of
module _ (w : World) (options : WorkerOptions) (job : Job) (key : String)
    {P D : History → Type 0} where
  pub free_entry :
      ((c : Call) (h : History) → IsLocking c → P h → P (c ∷ h))
      → ((c : Call) (h : History) → IsLocking c → D h → D (c ∷ h))
      → Entry w options job key P D P D
  free_entry keep keep_settled = record {
    enter =
        ask-Triple w _ _ (λ h p e. either P (w.lock_granted h key job.id) _ (keep _ h tt p))
          (λ h p. keep _ h tt p);
    leave = call-Keeps w _ (λ h q. keep_settled _ h tt q);
    leave_raised = call-Keeps w _ (λ h p. keep _ h tt p);
  }
