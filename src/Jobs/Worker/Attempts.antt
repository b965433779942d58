-- ===== src/Jobs/Worker/Attempts.antt =====
-- No job is tried more often than the options allow.
use agents_at_scale.Prelude.{String, Bool, arith, All, Option, none, some, []}
use agents_at_scale.Prelude.Eq.{string_eq}
use agents_at_scale.Jobs.Platform.{
  Job, Call, broker_retry, ack, nack, raised, returned, Outcome, History, World,
}
use agents_at_scale.Jobs.Platform.Triples.{Ends, call-Keeps}
use agents_at_scale.Jobs.Worker.{WorkerOptions, consume}
use agents_at_scale.Jobs.Worker.Rules.{consume-Triple}
use agents_at_scale.Jobs.Worker.Discipline.{free_entry}
use agents_at_scale.Jobs.Worker.Discipline.{IsScheduled, IsOther, IsLocking, Discipline}

-- A retry is one that the options leave, or a delay with no attempt counted.
abbrev pub Limited : WorkerOptions → Job → Call → Type 0
Limited options job (broker_retry next level) = IsScheduled options job next level
Limited options job _ = Unit

module _ (w : World) (options : WorkerOptions) (job : Job) where
  abbrev AllLimited : History → Type 0
  AllLimited = All (Limited options job)

  other_Limited :
      (key : Option String) (c : Call) → IsOther options job key c → Limited options job c
  other_Limited key c o = ground arith

  locking_Limited : (c : Call) → IsLocking c → Limited options job c
  locking_Limited c o = ground arith

  limits :
      (key : Option String)
      → Discipline w options job key AllLimited AllLimited AllLimited AllLimited
  limits key = record {
    other = λ c h o p. (other_Limited key c o, p);
    hand = λ c h o _ p e. (other_Limited key c o, p);
    stored = λ h p e t. (tt, p);
    left = λ h p. p;
    acked = call-Keeps w ack (λ h p. (tt, p));
    nacked = λ requeue. call-Keeps w (nack requeue) (λ h p. (tt, p));
  }

  settled_or_not :
      (x : Outcome (Unit {0}) × History) → Ends (λ _. AllLimited) AllLimited x → AllLimited x.1
  settled_or_not (returned a, h) p = p
  settled_or_not (raised e, h) p = p

  -- Whatever fails, a job goes to a retry queue only with one more attempt than it had, below the maximum, in
  -- the queue of that level, or unchanged in the first queue.
  pub consume-AllLimited :
      (ready : Bool) → All (Limited options job) (consume w options (some job) ready []).1
  consume-AllLimited ready = settled_or_not (consume w options (some job) ready []) (
      (consume-Triple w options job (limits none) (λ key. limits (some key))
          (λ key.
            free_entry w options job key (λ c g l p. (locking_Limited c l, p))
              (λ c g l p. (locking_Limited c l, p)))
          ready).run
        [] tt)
