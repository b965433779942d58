-- ===== src/Jobs/Platform/Triples.antt =====
-- Reasoning on computations that call outside: what holds of the history before and after, whether they
-- return or raise, with a rule for each way to compose them.
use agents_at_scale.Prelude.{String, ◌≡◌, refl, Bool, true, false, Option, none, some, ◌∷◌}
use agents_at_scale.Jobs.Platform.{
  Call, History, World, Outcome, returned, raised, Exec, continue, ◌>>=◌, pure, recover, try_except,
  closing, succeeded, attempt, finally, answer, call, ask,
}

-- The assertion that holds at the end, by the outcome.
abbrev pub Ends :
    {A : Type 0} → (A → History → Type 0) → (History → Type 0) → Outcome A × History → Type 0
Ends Q E (returned a, h) = Q a h
Ends Q E (raised e, h) = E h

pub record Triple {A : Type 0} (P : History → Type 0) (m : Exec A) (Q : A → History → Type 0)
    (E : History → Type 0) : Type 0 where
  pub run : (h : History) → P h → Ends Q E (m h)

module _ {A B : Type 0} where
  bind_of :
      (f : A → Exec B) (Q : A → History → Type 0) (R : B → History → Type 0) (E : History → Type 0)
      (x : Outcome A × History)
      → Ends Q E x
      → ((a : A) → Triple (Q a) (f a) R E)
      → Ends R E (continue f x)
  bind_of f Q R E (returned a, h) q t = (t a).run h q
  bind_of f Q R E (raised e, h) q t = q

  pub >>=-Triple :
      {P : History → Type 0} {Q : A → History → Type 0} {R : B → History → Type 0}
      {E : History → Type 0} {m : Exec A} {f : A → Exec B}
      → Triple P m Q E
      → ((a : A) → Triple (Q a) (f a) R E)
      → Triple P (m >>= f) R E
  >>=-Triple {Q = Q} {R} {E} {m} {f} first rest = record {
    run = λ h p. bind_of f Q R E (m h) (first.run h p) rest;
  }

  finally_of :
      (last : Exec B) (Q Q' : A → History → Type 0) (E E' : History → Type 0)
      (x : Outcome A × History)
      → Ends Q E x
      → ((a : A) → Triple (Q a) last (λ _. Q' a) (Q' a))
      → Triple E last (λ _. E') E'
      → Ends Q' E' (closing (λ h. (succeeded (last h)).1) x)
  finally_of last Q Q' E E' (returned a, h) q t u = go (last h) ((t a).run h q)
    where
      go : (y : Outcome B × History) → Ends (λ _. Q' a) (Q' a) y → Q' a (succeeded y).1
      go (returned _, _) k = k
      go (raised _, _) k = k
  finally_of last Q Q' E E' (raised e, h) q t u = go (last h) (u.run h q)
    where
      go : (y : Outcome B × History) → Ends (λ _. E') E' y → E' (succeeded y).1
      go (returned _, _) k = k
      go (raised _, _) k = k

  pub finally-Triple :
      {P : History → Type 0} {Q Q' : A → History → Type 0} {E E' : History → Type 0} {m : Exec A}
      {last : Exec B}
      → Triple P m Q E
      → ((a : A) → Triple (Q a) last (λ _. Q' a) (Q' a))
      → Triple E last (λ _. E') E'
      → Triple P (finally m last) Q' E'
  finally-Triple {Q = Q} {Q'} {E} {E'} {m} {last} body t u = record {
    run = λ h p. finally_of last Q Q' E E' (m h) (body.run h p) t u;
  }

module _ {A : Type 0} where
  pub pure-Triple :
      {Q : A → History → Type 0} {E : History → Type 0} (a : A) → Triple (Q a) (pure a) Q E
  pure-Triple a = record { run = λ h q. q }

  -- Weaker assertions at the end
  pub weaken :
      {P : History → Type 0} {Q Q' : A → History → Type 0} {E E' : History → Type 0} {m : Exec A}
      → ((a : A) (h : History) → Q a h → Q' a h)
      → ((h : History) → E h → E' h)
      → Triple P m Q E
      → Triple P m Q' E'
  weaken {Q = Q} {Q'} {E} {E'} {m} q e t = record { run = λ h p. go (m h) (t.run h p) }
    where
      go : (x : Outcome A × History) → Ends Q E x → Ends Q' E' x
      go (returned a, h') k = q a h' k
      go (raised _, h') k = e h' k

  pub try_except-Triple :
      {P : History → Type 0} {Q : A → History → Type 0} {E F : History → Type 0} {m : Exec A}
      {handler : String → Exec A}
      → Triple P m Q E
      → ((e : String) → Triple E (handler e) Q F)
      → Triple P (try_except m handler) Q F
  try_except-Triple {Q = Q} {E} {F} {m} {handler} body caught = record {
    run = λ h p. go (m h) (body.run h p);
  }
    where
      go : (x : Outcome A × History) → Ends Q E x → Ends Q F (recover handler x)
      go (returned a, h') k = k
      go (raised e, h') k = (caught e).run h' k

  pub attempt-Triple :
      {P : History → Type 0} {Q : Bool → History → Type 0} {E : History → Type 0} {m : Exec A}
      → Triple P m (λ _. Q true) (Q false)
      → Triple P (attempt m) Q E
  attempt-Triple {Q = Q} {m = m} body = record { run = λ h p. go (m h) (body.run h p) }
    where
      go :
          (x : Outcome A × History)
          → Ends (λ _. Q true) (Q false) x
          → Q (succeeded x).0 (succeeded x).1
      go (returned _, h') k = k
      go (raised _, h') k = k

module _ {A : Type 0} (w : World) (c : Call) (result : History → A) where
  -- A call goes through or raises.
  pub ask_or_raise :
      {P : History → Type 0} {Q : A → History → Type 0} {E : History → Type 0}
      → ((h : History) → P h → w.raises h c ≡ none → Q (result h) (c ∷ h))
      → ((h : History) (error : String) → P h → w.raises h c ≡ some error → E (c ∷ h))
      → Triple P (ask w c result) Q E
  ask_or_raise {P} {Q} {E} done failed = record { run = λ h p. go h p (w.raises h c) refl }
    where
      go :
          (h : History)
          → P h
          → (o : Option String) → w.raises h c ≡ o
          → Ends Q E (answer w o (result h), c ∷ h)
      go h p none e = done h p e
      go h p (some x) e = failed h x p e

  pub ask-Triple :
      {P : History → Type 0} {Q : A → History → Type 0} {E : History → Type 0}
      → ((h : History) → P h → w.raises h c ≡ none → Q (result h) (c ∷ h))
      → ((h : History) → P h → E (c ∷ h))
      → Triple P (ask w c result) Q E
  ask-Triple done failed = ask_or_raise done (λ h x p e. failed h p)

module _ (w : World) (c : Call) where
  pub call-Triple :
      {P Q E : History → Type 0}
      → ((h : History) → P h → w.raises h c ≡ none → Q (c ∷ h))
      → ((h : History) → P h → E (c ∷ h))
      → Triple P (call w c) (λ _. Q) E
  call-Triple done failed = ask-Triple w c (λ _. tt) done failed

  -- Whether it goes through or raises, the same holds after the call.
  pub call-Keeps :
      {P Q : History → Type 0} → ((h : History) → P h → Q (c ∷ h)) → Triple P (call w c) (λ _. Q) Q
  call-Keeps step = call-Triple (λ h p _. step h p) step
