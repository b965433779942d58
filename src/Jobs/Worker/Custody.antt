-- ===== src/Jobs/Worker/Custody.antt =====
-- No job is lost by an acknowledgement.
use agents_at_scale.Prelude.{
  String, ◌≡◌, ◌⊎◌, inl, inr, refl, Bool, true, arith, Option, none, some, [], ◌∷◌,
}
use agents_at_scale.Prelude.Eq.{string_eq}
use agents_at_scale.Jobs.Platform.{
  Job, Call, get_job_status, ack, nack, raised, returned, Outcome, History, World,
}
use agents_at_scale.Jobs.Platform.Triples.{Ends, call-Keeps}
use agents_at_scale.Jobs.Worker.{WorkerOptions, is_terminal, consume}
use agents_at_scale.Jobs.Worker.Rules.{consume-Triple}
use agents_at_scale.Jobs.Worker.Discipline.{free_entry}
use agents_at_scale.Jobs.Worker.Discipline.{IsOther, IsHanding, IsLocking, Discipline}

-- The job has a final status that was stored before, has got one now, or was handed to another queue.
pub IsHandedOn : World → Job → History → Type 0
IsHandedOn w job [] = ⊥
IsHandedOn w job (c ∷ h) =
    (w.raises h c ≡ none)
      × (IsHanding job c
          ⊎ (c ≡ get_job_status job.id) × (is_terminal (w.stored_status h job.id) ≡ true))
    ⊎ IsHandedOn w job h

-- What an acknowledgement needs
abbrev pub OfAck : Call → Type 0 → Type 0
OfAck ack P = P
OfAck _ P = Unit

-- Whenever the delivery was acknowledged, the job had been handed on before.
pub IsSafe : World → Job → History → Type 0
IsSafe w job [] = Unit
IsSafe w job (c ∷ h) = OfAck c (IsHandedOn w job h) × IsSafe w job h

module _ (w : World) (options : WorkerOptions) (job : Job) where
  abbrev Ready : History → Type 0
  Ready h = IsHandedOn w job h × IsSafe w job h

  other_OfAck :
      (key : Option String) (c : Call) (P : Type 0) → IsOther options job key c → OfAck c P
  other_OfAck key c P o = ground arith

  locking_IsSafe : (c : Call) (h : History) → IsLocking c → IsSafe w job h → IsSafe w job (c ∷ h)
  unfolding IsSafe
  locking_IsSafe c h l p = (ground arith, p)

  custody :
      (key : Option String)
      → Discipline w options job key (IsSafe w job) Ready (IsSafe w job) (IsSafe w job)
  unfolding IsSafe IsHandedOn
  custody key = record {
    other = λ c h o p. (other_OfAck key c (IsHandedOn w job h) o, p);
    hand = λ c h o n p e. (inl (e, inl n), (other_OfAck key c (IsHandedOn w job h) o, p));
    stored = λ h p e t. (inl (e, inr (refl, t)), (tt, p));
    left = λ h p. p;
    acked = call-Keeps w ack (λ h p. p);
    nacked = λ requeue. call-Keeps w (nack requeue) (λ h p. (tt, p));
  }

  IsSafe-anyway :
      (x : Outcome (Unit {0}) × History)
      → Ends (λ _. IsSafe w job) (IsSafe w job) x
      → IsSafe w job x.1
  IsSafe-anyway (returned a, h) p = p
  IsSafe-anyway (raised e, h) p = p

  -- Whatever fails, a delivery is acknowledged only after the job was handed on: a final status of it was read or
  -- has been stored, or it went to a retry queue or to the dead queue.
  pub consume-IsSafe : (ready : Bool) → IsSafe w job (consume w options (some job) ready []).1
  unfolding IsSafe
  consume-IsSafe ready = IsSafe-anyway (consume w options (some job) ready []) (
      (consume-Triple w options job (custody none) (λ key. custody (some key))
          (λ key. free_entry w options job key locking_IsSafe locking_IsSafe) ready).run
        [] tt)
