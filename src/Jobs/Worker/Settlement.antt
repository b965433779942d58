-- ===== src/Jobs/Worker/Settlement.antt =====
-- Every delivery is settled.
use agents_at_scale.Prelude.{
  ℕ, String, ◌≡◌, refl, ◌∙◌, Bool, false, suc, arith, Option, none, some, [], ◌∷◌,
}
use agents_at_scale.Prelude.Eq.{string_eq}
use agents_at_scale.Jobs.Platform.{
  Job, Call, ack, nack, raised, returned, Outcome, History, World, call,
}
use agents_at_scale.Jobs.Platform.Triples.{Ends, Triple}
use agents_at_scale.Jobs.Worker.{WorkerOptions, consume}
use agents_at_scale.Jobs.Worker.Rules.{consume-Triple}
use agents_at_scale.Jobs.Worker.Discipline.{free_entry}
use agents_at_scale.Jobs.Worker.Discipline.{IsOther, IsLocking, Discipline}

unfoldable pub settled : History → ℕ
settled [] = 0
settled (ack ∷ h) = suc (settled h)
settled (nack requeue ∷ h) = suc (settled h)
settled (_ ∷ h) = settled h

-- The broker takes what settles a delivery.
pub record Settles (w : World) : Type 0 where
  pub takes_ack : (h : History) → w.raises h ack ≡ none
  pub takes_nack : (h : History) (requeue : Bool) → w.raises h (nack requeue) ≡ none

module _ (w : World) (s : Settles w) where
  call_ack : (n : ℕ) → Triple (λ h. settled h ≡ n) (call w ack) (λ _ h. settled h ≡ suc n) (λ _. ⊥)
  unfolding settled
  call_ack n = record { run = λ h p. rw (s.takes_ack h, p) refl }

  call_nack :
      (n : ℕ) (requeue : Bool)
      → Triple (λ h. settled h ≡ n) (call w (nack requeue)) (λ _ h. settled h ≡ suc n) (λ _. ⊥)
  unfolding settled
  call_nack n requeue = record { run = λ h p. rw (s.takes_nack h requeue, p) refl }

settled_other :
    (options : WorkerOptions) (job : Job) (key : Option String) (c : Call) (h : History)
    → IsOther options job key c
    → settled (c ∷ h) ≡ settled h
unfolding settled
settled_other options job key c h o = ground arith

settled_locking : (c : Call) (h : History) → IsLocking c → settled (c ∷ h) ≡ settled h
unfolding settled
settled_locking c h o = ground arith

module _ (w : World) (options : WorkerOptions) (job : Job) (key : Option String) (n : ℕ) where
  settlement :
      Settles w
      → Discipline w options job key
          (λ h. settled h ≡ n)
          (λ h. settled h ≡ n)
          (λ h. settled h ≡ suc n)
          (λ _. ⊥)
  unfolding settled
  settlement s = record {
    other = λ c h o p. settled_other options job key c h o ∙ p;
    hand = λ c h o _ p e. settled_other options job key c h o ∙ p;
    stored = λ h p e t. p;
    left = λ h x. absurd x;
    acked = call_ack w s n;
    nacked = call_nack w s n;
  }

-- A delivery is settled exactly once and its handling raises nothing, whichever calls of the store, the broker
-- and the agent fail, if the broker takes its settlement.
pub settled-consume :
    (w : World) (options : WorkerOptions) (envelope : Option Job) (ready : Bool) (h : History)
    → Settles w
    → (settled (consume w options envelope ready h).1 ≡ suc (settled h))
      × ((consume w options envelope ready h).0 ≡ returned tt)
unfolding settled consume
settled-consume w options none ready h s = (refl, rw (s.takes_nack h false) refl)
settled-consume w options (some job) ready h s = go (consume w options (some job) ready h) (
    (consume-Triple w options job (settlement w options job none (settled h) s)
        (λ key. settlement w options job (some key) (settled h) s)
        (λ key.
          free_entry w options job key (λ c g l p. settled_locking c g l ∙ p)
            (λ c g l p. settled_locking c g l ∙ p))
        ready).run
      h refl)
  where
    go :
        (x : Outcome (Unit {0}) × History)
        → Ends (λ _ h'. settled h' ≡ suc (settled h)) (λ _. ⊥) x
        → (settled x.1 ≡ suc (settled h)) × (x.0 ≡ returned tt)
    go (returned tt, h') k = (k, refl)
    go (raised e, h') k = absurd k
