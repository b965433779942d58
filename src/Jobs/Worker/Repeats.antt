-- ===== src/Jobs/Worker/Repeats.antt =====
-- A redelivered job that has a final status is not run again (langgraph-python/app/jobs/service.py).
use agents_at_scale.Prelude.{
  String, ◌≡◌, ◌⊎◌, Bool, false, Option, none, some, [], ◌∷◌, arith, Bool-cases, inl, inr, refl,
  if◌then◌else◌,
}
use agents_at_scale.Prelude.Eq.{◌==◌, string_eq}
use agents_at_scale.Jobs.Platform.{
  JobStatus, waiting_for_confirmation, completed, failed, Job, Call, get_job_status, ack, nack,
  agent_run, agent_resume, returned, raised, Outcome, History, World,
}
use agents_at_scale.Jobs.Platform.Triples.{
  Triple, Ends, >>=-Triple, try_except-Triple, weaken, ask-Triple, call-Keeps,
}
use agents_at_scale.Jobs.Worker.{WorkerOptions, is_terminal, handle, process, consume}
use agents_at_scale.Jobs.Worker.Rules.{handle-Triple, retry-Triple}
use agents_at_scale.Jobs.Worker.Discipline.{IsOther, Discipline, free_entry}

-- The job has not come to an end.
abbrev pub IsOpen : Option JobStatus → Type 0
IsOpen (some completed) = ⊥
IsOpen (some waiting_for_confirmation) = ⊥
IsOpen (some failed) = ⊥
IsOpen _ = Unit

is_terminal-IsOpen : (status : Option JobStatus) → is_terminal status ≡ false → IsOpen status
unfolding is_terminal
is_terminal-IsOpen status e = ground arith

module _ (w : World) (job : Job) where
  -- The status of the job has been read, and was open.
  abbrev pub WasOpen : History → Type 0
  WasOpen [] = ⊥
  WasOpen (c ∷ h) =
      (c ≡ get_job_status job.id) × (w.raises h c ≡ none) × IsOpen (w.stored_status h job.id)
      ⊎ WasOpen h

  abbrev pub MayRun : Call → History → Type 0
  MayRun (agent_run user_id session_id message) h = WasOpen h
  MayRun (agent_resume user_id session_id answer) h = WasOpen h
  MayRun _ h = Unit

  -- Before every run of the agent
  abbrev pub RunsOpen : History → Type 0
  RunsOpen [] = Unit
  RunsOpen (c ∷ h) = MayRun c h × RunsOpen h

  abbrev Opened : History → Type 0
  Opened h = RunsOpen h × WasOpen h

  may_run : (c : Call) (h : History) → WasOpen h → MayRun c h
  may_run c h seen = ground arith

  opened : (c : Call) (h : History) → Opened h → Opened (c ∷ h)
  opened c h p = ((may_run c h p.1, p.0), inr p.1)

  module _ (options : WorkerOptions) where
    no_run : (c : Call) (h : History) → IsOther options job none c → MayRun c h
    no_run c h o = ground arith

    -- Outside a conversation no call runs the agent.
    outside : Discipline w options job none RunsOpen RunsOpen RunsOpen RunsOpen
    outside = record {
      other = λ c h o p. (no_run c h o, p);
      hand = λ c h o _ p e. (no_run c h o, p);
      stored = λ h p e t. (tt, p);
      left = λ h p. p;
      acked = call-Keeps w ack (λ h p. (tt, p));
      nacked = λ requeue. call-Keeps w (nack requeue) (λ h p. (tt, p));
    }

    inside : (key : Option String) → Discipline w options job key Opened Opened Opened Opened
    inside key = record {
      other = λ c h _ p. opened c h p;
      hand = λ c h _ _ p e. opened c h p;
      stored = λ h p e t. opened _ h p;
      left = λ h p. p;
      acked = call-Keeps w ack (opened ack);
      nacked = λ requeue. call-Keeps w (nack requeue) (opened (nack requeue));
    }

    handled : (ready : Bool) → Triple Opened (handle w options job ready) (λ _. RunsOpen) RunsOpen
    handled ready =
        weaken (λ _ h p. p.0) (λ h p. p.0)
          (handle-Triple w options job (inside none) (λ key. inside (some key))
            (λ key.
              free_entry w options job key (λ c h _ p. opened c h p) (λ c h _ p. opened c h p))
            ready)

    processed :
        (ready : Bool) → Triple RunsOpen (process w options job ready) (λ _. RunsOpen) RunsOpen
    unfolding process
    processed ready =
        >>=-Triple {Q = λ status h. if is_terminal status then RunsOpen h else Opened h}
          (ask-Triple w (get_job_status job.id) (λ h. w.stored_status h job.id)
            (λ h p e. elim (Bool-cases (is_terminal (w.stored_status h job.id))) [
              | inl t ↦ rw t (tt, p)
              | inr t ↦ rw t ((tt, p), inl (refl, e, is_terminal-IsOpen _ t))
            ])
            (λ h p. (tt, p)))
          (λ status. elim (Bool-cases (is_terminal status)) [
            | inl t ↦ rw t (call-Keeps w ack (λ h p. (tt, p)))
            | inr t ↦ rw t (handled ready)
          ])

    consumed :
        (ready : Bool)
        → Triple RunsOpen (consume w options (some job) ready) (λ _. RunsOpen) RunsOpen
    unfolding consume
    consumed ready = elim (Bool-cases (job.id == "")) [
      | inl e ↦ rw e (call-Keeps w (nack false) (λ h p. (tt, p)))
      | inr e ↦ rw e (try_except-Triple (processed ready) (retry-Triple w options job outside))
    ]

    either_way : (x : Outcome (Unit {0}) × History) → Ends (λ _. RunsOpen) RunsOpen x → RunsOpen x.1
    either_way (returned a, h) p = p
    either_way (raised e, h) p = p

    -- Whatever fails, the agent runs or is resumed for a delivered job only after the job's status was read and
    -- was not a final one: completed, waiting for the user's confirmation or failed.
    pub consume-RunsOpen : (ready : Bool) → RunsOpen (consume w options (some job) ready []).1
    consume-RunsOpen ready =
        either_way (consume w options (some job) ready []) ((consumed ready).run [] tt)
