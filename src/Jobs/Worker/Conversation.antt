-- ===== src/Jobs/Worker/Conversation.antt =====
-- One job per conversation at a time: the agent runs under the conversation's lock, which is given back.
use agents_at_scale.Prelude.{
  String, not, ◌||◌, ◌≡◌, ◌↔◌, ◌⊎◌, inl, inr, refl, sym, ◌∙◌, Bool, true, false, ◌&&◌, arith,
  Bool-cases, Option, none, some, [], ◌∷◌, if◌then◌else◌,
}
use agents_at_scale.Prelude.Eq.{◌==◌, string_eq}
use text.Mathlib.TextEquality.{eq_iff}
use agents_at_scale.Jobs.Platform.{
  Job, Call, acquire_conversation_lock, release_conversation_lock, ack, nack, agent_run,
  agent_resume, raised, returned, Outcome, History, World,
}
use agents_at_scale.Jobs.Platform.Triples.{Ends, ask_or_raise, call-Keeps}
use agents_at_scale.Jobs.Worker.{WorkerOptions, conversation, consume}
use agents_at_scale.Jobs.Worker.Rules.{consume-Triple}
use agents_at_scale.Jobs.Worker.Discipline.{IsOther, Discipline, Entry}

abbrev is_none {ℓ} : {A : Type ℓ} → Option A → Bool
is_none none = true
is_none (some _) = false

-- Whether the lock of a conversation was granted to the token and not given back since. A call that raises neither
-- takes nor gives back.
pub holds : World → String → String → History → Bool
holds w key token [] = false
holds w key token (acquire_conversation_lock other owner ttl_ms ∷ h) =
    let before = holds w key token h in
    if other == key && owner == token
    then is_none (w.raises h (acquire_conversation_lock other owner ttl_ms))
        && w.lock_granted h key token
      || before
    else before
holds w key token (release_conversation_lock other owner ∷ h) =
    let before = holds w key token h in
    if other == key && owner == token
    then not (is_none (w.raises h (release_conversation_lock other owner))) && before
    else before
holds w key token (_ ∷ h) = holds w key token h

-- Whether giving a lock back has raised.
pub release_failed : World → String → String → History → Bool
release_failed w key token [] = false
release_failed w key token (release_conversation_lock other owner ∷ h) =
    let before = release_failed w key token h in
    if other == key && owner == token
    then not (is_none (w.raises h (release_conversation_lock other owner))) || before
    else before
release_failed w key token (_ ∷ h) = release_failed w key token h

-- The same, where a release counts even if it raised.
keeps : World → String → String → History → Bool
keeps w key token [] = false
keeps w key token (acquire_conversation_lock other owner ttl_ms ∷ h) =
    let before = keeps w key token h in
    if other == key && owner == token
    then is_none (w.raises h (acquire_conversation_lock other owner ttl_ms))
        && w.lock_granted h key token
      || before
    else before
keeps w key token (release_conversation_lock other owner ∷ h) =
    let before = keeps w key token h in if other == key && owner == token then false else before
keeps w key token (_ ∷ h) = keeps w key token h

-- The agent was run only in a conversation of which the token held the lock.
pub IsGuarded : World → String → History → Type 0
IsGuarded w token [] = Unit
IsGuarded w token (agent_run user_id session_id message ∷ h) =
    (holds w (conversation user_id session_id) token h ≡ true) × IsGuarded w token h
IsGuarded w token (agent_resume user_id session_id answer ∷ h) =
    (holds w (conversation user_id session_id) token h ≡ true) × IsGuarded w token h
IsGuarded w token (_ ∷ h) = IsGuarded w token h

IsKept : World → String → History → Type 0
IsKept w token [] = Unit
IsKept w token (agent_run user_id session_id message ∷ h) =
    (keeps w (conversation user_id session_id) token h ≡ true) × IsKept w token h
IsKept w token (agent_resume user_id session_id answer ∷ h) =
    (keeps w (conversation user_id session_id) token h ≡ true) × IsKept w token h
IsKept w token (_ ∷ h) = IsKept w token h

module _ (w : World) (options : WorkerOptions) (job : Job) where
  abbrev Free : History → Type 0
  Free h = ((key : String) → keeps w key job.id h ≡ false) × IsKept w job.id h

  abbrev Held : String → History → Type 0
  Held key h =
      (keeps w key job.id h ≡ true)
      × ((other : String) → keeps w other job.id h ≡ true → other ≡ key)
      × IsKept w job.id h

  keeps_other :
      (at : Option String) (key : String) (c : Call) (h : History)
      → IsOther options job at c
      → keeps w key job.id (c ∷ h) ≡ keeps w key job.id h
  unfolding keeps
  keeps_other at key c h o = ground arith

  Free-other : (c : Call) (h : History) → IsOther options job none c → Free h → Free (c ∷ h)
  unfolding IsKept
  Free-other c h o (free, guarded) = (λ key. keeps_other none key c h o ∙ free key, ground arith)

  Held-other :
      (key : String) (c : Call) (h : History)
      → IsOther options job (some key) c
      → Held key h
      → Held key (c ∷ h)
  unfolding IsKept
  Held-other key c h o (held, only, guarded) = (
    keeps_other (some key) key c h o ∙ held,
    λ other k. only other (sym (keeps_other (some key) other c h o) ∙ k),
    ground arith,
  )

  abbrev acquire : String → Call
  acquire key = acquire_conversation_lock key job.id options.lock_ttl_ms

  keeps-acquire :
      (key other : String) (h : History)
      → keeps w other job.id h ≡ false
      → w.raises h (acquire key) ≡ none
      → (keeps w other job.id (acquire key ∷ h) ≡ true)
        ↔ (other ≡ key) × (w.lock_granted h key job.id ≡ true)
  unfolding keeps
  keeps-acquire key other h free returns = ground (arith, eq_iff key other, eq_iff job.id job.id)

  Held-acquire :
      (key : String) (h : History)
      → Free h
      → w.raises h (acquire key) ≡ none
      → w.lock_granted h key job.id ≡ true
      → Held key (acquire key ∷ h)
  unfolding IsKept
  Held-acquire key h (free, guarded) returns granted = (
    (keeps-acquire key key h (free key) returns).1 (refl, granted),
    λ other k. ((keeps-acquire key other h (free other) returns).0 k).0,
    guarded,
  )

  keeps-acquire_refused :
      (key other : String) (h : History)
      → keeps w other job.id h ≡ false
      → ((e : String) × (w.raises h (acquire key) ≡ some e)) ⊎ (w.lock_granted h key job.id ≡ false)
      → keeps w other job.id (acquire key ∷ h) ≡ false
  unfolding keeps
  keeps-acquire_refused key other h free refused =
      ground (arith, eq_iff key other, eq_iff job.id job.id)

  abbrev release : String → Call
  release key = release_conversation_lock key job.id

  keeps-release :
      (key other : String) (h : History)
      → (keeps w other job.id h ≡ true → other ≡ key)
      → keeps w other job.id (release key ∷ h) ≡ false
  unfolding keeps
  keeps-release key other h only = ground (arith, eq_iff key other, eq_iff job.id job.id, only)

  in_turn : (key : String) → Entry w options job key Free Free (Held key) (Held key)
  unfolding IsKept
  in_turn key = record {
    enter =
        ask_or_raise w (acquire key) (λ h. w.lock_granted h key job.id)
          (λ h p e. granted_or_not h p e (w.lock_granted h key job.id) refl)
          (λ h x p e. (λ other. keeps-acquire_refused key other h (p.0 other) (inl (x, e)), p.1));
    leave =
        call-Keeps w (release key) (λ h p. (λ other. keeps-release key other h (p.1 other), p.2));
    leave_raised =
        call-Keeps w (release key) (λ h p. (λ other. keeps-release key other h (p.1 other), p.2));
  }
    where
      granted_or_not :
          (h : History)
          → Free h
          → w.raises h (acquire key) ≡ none
          → (granted : Bool) → w.lock_granted h key job.id ≡ granted
          → (if granted then Held key else Free) (acquire key ∷ h)
      granted_or_not h p e true g = Held-acquire key h p e g
      granted_or_not h p e false g =
          (λ other. keeps-acquire_refused key other h (p.0 other) (inr g), p.1)

  outside : Discipline w options job none Free Free Free Free
  unfolding keeps IsKept
  outside = record {
    other = Free-other;
    hand = λ c h o n p e. Free-other c h o p;
    stored = λ h p e t. p;
    left = λ h p. p;
    acked = call-Keeps w ack (λ h p. p);
    nacked = λ requeue. call-Keeps w (nack requeue) (λ h p. p);
  }

  within :
      (key : String)
      → Discipline w options job (some key) (Held key) (Held key) (Held key) (Held key)
  unfolding keeps IsKept
  within key = record {
    other = Held-other key;
    hand = λ c h o n p e. Held-other key c h o p;
    stored = λ h p e t. p;
    left = λ h p. p;
    acked = call-Keeps w ack (λ h p. p);
    nacked = λ requeue. call-Keeps w (nack requeue) (λ h p. p);
  }

  Free-anyway : (x : Outcome (Unit {0}) × History) → Ends (λ _. Free) Free x → Free x.1
  Free-anyway (returned a, h) p = p
  Free-anyway (raised e, h) p = p

  consume-IsKept :
      (ready : Bool)
      → ((key : String) → keeps w key job.id (consume w options (some job) ready []).1 ≡ false)
        × IsKept w job.id (consume w options (some job) ready []).1
  unfolding keeps IsKept
  consume-IsKept ready =
      Free-anyway (consume w options (some job) ready [])
        ((consume-Triple w options job outside within in_turn ready).run [] (λ key. refl, tt))

module _ (w : World) (token : String) where
  holds_of_keeps :
      (key : String) (h : History) → keeps w key token h ≡ true → holds w key token h ≡ true
  unfolding holds keeps
  holds_of_keeps key [] kept = absurd (cc)
  holds_of_keeps key (c ∷ h) kept = ground (arith, holds_of_keeps key h)

  keeps-or-release_failed :
      (key : String) (h : History)
      → holds w key token h ≡ true
      → (keeps w key token h ≡ true) ⊎ (release_failed w key token h ≡ true)
  unfolding holds keeps release_failed
  keeps-or-release_failed key [] held = absurd (cc)
  keeps-or-release_failed key (c ∷ h) held = ground (arith, keeps-or-release_failed key h)

  IsGuarded-IsKept : (h : History) → IsKept w token h → IsGuarded w token h
  unfolding IsGuarded IsKept
  IsGuarded-IsKept [] kept = tt
  IsGuarded-IsKept (agent_run user_id session_id message ∷ h) kept =
      (holds_of_keeps (conversation user_id session_id) h kept.0, IsGuarded-IsKept h kept.1)
  IsGuarded-IsKept (agent_resume user_id session_id answer ∷ h) kept =
      (holds_of_keeps (conversation user_id session_id) h kept.0, IsGuarded-IsKept h kept.1)
  IsGuarded-IsKept (c ∷ h) kept = ground (arith, IsGuarded-IsKept h)

-- Whatever fails, the agent is run only in a conversation whose lock the job has been granted and has not given
-- back, and when the handling ends the job holds no lock, except one whose giving back raised.
pub consume-IsGuarded :
    (w : World) (options : WorkerOptions) (job : Job) (ready : Bool)
    → ((key : String)
        → (holds w key job.id (consume w options (some job) ready []).1 ≡ false)
          ⊎ (release_failed w key job.id (consume w options (some job) ready []).1 ≡ true))
      × IsGuarded w job.id (consume w options (some job) ready []).1
consume-IsGuarded w options job ready =
    let (free, kept) = consume-IsKept w options job ready in
    let after = (consume w options (some job) ready []).1 in
    (
      λ key. elim (Bool-cases (holds w key job.id after)) [
        | inr none_held ↦ inl none_held
        | inl held ↦ elim (keeps-or-release_failed w job.id key after held) [
          | inl kept ↦ absurd (cc (kept, free key))
          | inr failed ↦ inr failed
        ]
      ],
      IsGuarded-IsKept w job.id after kept,
    )
