-- ===== src/Jobs/Platform.antt =====
-- What a job's handling calls: the job store on Redis, the broker, the delivery to settle and the agent
-- (the protocols of langgraph-python/app/jobs/service.py). They are outside: what each of them does, which
-- calls raise included, is a parameter that may depend on everything that was called before.
pub mod Triples
use agents_at_scale.Prelude.{ℕ, String, Bool, true, false, Option, none, some, List, [], ◌∷◌}
use agents_at_scale.Jobs.Json.{Json, Members}

pub data JobStatus : Type 0 where
  published processing waiting_for_confirmation completed failed retrying : JobStatus

-- The fields of a job's timing.
pub data Timing : Type 0 where
  published_ms started_ms finished_ms attempts : Timing

-- The queued envelope (langgraph-python/app/platform/rabbitmq.py).
pub record Job : Type 0 where
  pub id : String
  pub payload : Json
  pub attempt : ℕ
  pub error : Option String

pub data Call : Type 0 where
  get_job_status : String → Call
  set_job_status : String → JobStatus → Call
  set_job_metadata : String → Members → Call
  mark_job_timing : String → Timing → ℕ → Call
  set_job_timing : String → Timing → ℕ → Call
  claim_idempotency_key : String → String → Call
  release_idempotency_key : String → Call
  acquire_conversation_lock : String → String → ℕ → Call
  release_conversation_lock : String → String → Call
  broker_publish : Job → Call
  broker_retry : Job → ℕ → Call
  broker_dead_letter : Job → Call
  ack : Call
  nack : Bool → Call
  agent_run : String → String → Json → Call
  agent_resume : String → String → Json → Call

-- The calls so far, the last one first.
abbrev pub History : Type 0
History = List Call

pub record Final : Type 0 where
  pub status : String
  pub message : String

-- What a run of the agent comes to.
pub data AgentRun : Type 0 where
  -- its state has an interrupt, of this value
  interrupted : Json → AgentRun
  finished : Option Final → AgentRun
  no_pending_input raised : String → AgentRun

pub record World : Type 0 where
  -- the error of a call that raises
  pub raises : History → Call → Option String
  -- none for a job of which no status is stored
  pub stored_status : History → String → Option JobStatus
  pub lock_granted : History → String → String → Bool
  -- who owns an idempotency key, and whether the claim was the first
  pub key_owner : History → String → String → String × Bool
  pub agent : History → Call → AgentRun
  pub now_ms : History → ℕ
  pub new_id : History → String

pub data Outcome {ℓ} (A : Type ℓ) : Type ℓ where
  returned : A → Outcome A
  raised : String → Outcome A

abbrev pub Exec : Type 0 → Type 0
Exec A = History → Outcome A × History

abbrev pub continue : {A B : Type 0} → (A → Exec B) → Outcome A × History → Outcome B × History
continue f (returned a, h) = f a h
continue f (raised e, h) = (raised e, h)

infixl 5 ◌>>=◌ ◌>>◌
abbrev pub ◌>>=◌ : {A B : Type 0} → Exec A → (A → Exec B) → Exec B
◌>>=◌ m f h = continue f (m h)

abbrev pub ◌>>◌ : {B : Type 0} → Exec (Unit {0}) → Exec B → Exec B
first >> rest = first >>= λ _. rest

abbrev pub pure : {A : Type 0} → A → Exec A
pure a h = (returned a, h)

-- `except Exception as error`
abbrev pub recover : {A : Type 0} → (String → Exec A) → Outcome A × History → Outcome A × History
recover handler (returned a, h) = (returned a, h)
recover handler (raised e, h) = handler e h

abbrev pub try_except : {A : Type 0} → Exec A → (String → Exec A) → Exec A
try_except m handler h = recover handler (m h)

-- `raise`
abbrev pub raise : {A : Type 0} → String → Exec A
raise e h = (raised e, h)

-- The last block runs whatever happened, and does not raise.
abbrev pub closing : {A : Type 0} → (History → History) → Outcome A × History → Outcome A × History
closing last (o, h) = (o, last h)

abbrev pub succeeded : {A : Type 0} → Outcome A × History → Bool × History
succeeded (returned _, h) = (true, h)
succeeded (raised _, h) = (false, h)

-- A block whose exception is logged and dropped: whether it ran to its end.
abbrev pub attempt : {A : Type 0} → Exec A → Exec Bool
attempt m h = let (done, h') = succeeded (m h) in (returned done, h')

abbrev pub finally : {A B : Type 0} → Exec A → Exec B → Exec A
finally m last = λ h. closing (λ h'. (succeeded (last h')).1) (m h)

module _ (w : World) where
  abbrev pub answer {ℓ} : {A : Type ℓ} → Option String → A → Outcome A
  answer none a = returned a
  answer (some e) a = raised e

  abbrev pub call : Call → Exec (Unit {0})
  call c h = (answer (w.raises h c) tt, c ∷ h)

  -- A call with a result, that its oracle gives.
  abbrev pub ask : {A : Type 0} → Call → (History → A) → Exec A
  ask c result h = (answer (w.raises h c) (result h), c ∷ h)

  abbrev pub run_agent : Call → Exec AgentRun
  run_agent c h = (returned (w.agent h c), c ∷ h)

  abbrev pub now : Exec ℕ
  now h = (returned (w.now_ms h), h)
