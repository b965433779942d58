-- ===== src/Jobs/Endpoint/Answers.antt =====
-- What an answer of the endpoint (langgraph-python/app/jobs/router.py) says of the job.
use Prim.Native.String.append
use Prim.Native.String.{count, [] as empty, ◌∷◌ as cons, ◌++◌}
use text.Mathlib.TextEquality.{eq_iff}
use agents_at_scale.Prelude.{
  ℕ, String, ◌≡◌, ◌≢◌, ◌<◌, ◌≤◌, ◌⊎◌, inl, inr, refl, sym, ap, subst, ◌∙◌, Bool, true, false,
  Option, none, some, [], ◌∷◌, ltb, if◌then◌else◌, arith, Bool-cases, Option-cases,
}
use agents_at_scale.Prelude.Eq.{◌==◌, string_eq}
use agents_at_scale.Prelude.Int.{ℤ}
use agents_at_scale.Jobs.Json.{Json, object, Members}
use agents_at_scale.Jobs.Request.{valid, validate_request, ChatRequest, chat_error, dump}
use agents_at_scale.Jobs.Request.Agreement.{validate_request-dump}
use agents_at_scale.Jobs.Platform.{
  claim_idempotency_key, release_idempotency_key, History, ◌>>=◌, ◌>>◌, Outcome, returned, raised,
  World,
}
use agents_at_scale.Jobs.Publish.{queue, publish_job, publish}
use agents_at_scale.Jobs.Publish.Outcomes.{
  Went, new_job, queued_at, queue_ok, publish_failed, publish_queued, publish_repeated,
}
use agents_at_scale.Jobs.Endpoint.{
  FieldError, Response, after_prefix, removeprefix, error_detail, refusal, accepted, respond,
  key_or_none, header_key, model_validate, publish_request, publish_chat,
}

after_prefix-append : (p s : String) → after_prefix p (p ++ s) ≡ some s
unfolding after_prefix
after_prefix-append empty s = rw (append.nil s)
after_prefix-append (cons c p) s = rw (append.cons c p s, after_prefix-append p s) (ground (arith))

removeprefix-append : (p s : String) → removeprefix p (p ++ s) ≡ s
unfolding removeprefix
removeprefix-append p s = rw (removeprefix, after_prefix-append p s)

-- The text of a validator's error reaches the client as it was raised.
error_detail-value_error :
    (e : String)
    → error_detail (record { type_name = "value_error"; loc = []; msg = "Value error, " ++ e }) ≡ e
unfolding error_detail
error_detail-value_error e = removeprefix-append "Value error, " e

module _ (w : World) (payload : Members) (key : String) (h : History) where
  -- Nothing was done for a key that another request has: its job is named.
  pub record IsDuplicate (r : Response) (after : History) : Type 0 where
    pub given : key ≢ ""
    pub taken : (w.key_owner h key (w.new_id h)).1 ≡ false
    pub answer : r ≡ accepted ((w.key_owner h key (w.new_id h)).0, true)
    pub only : after ≡ claim_idempotency_key key (w.new_id h) ∷ h

  -- The calls before the job's status is stored: the claim of the key, if there is one.
  abbrev pub claimed_first : History
  claimed_first = if key == "" then h else claim_idempotency_key key (w.new_id h) ∷ h

  -- The status of a new job and its time were stored and the broker then took it, and a worker will find it valid.
  pub record IsQueued (r : Response) (after : History) : Type 0 where
    pub answer : r ≡ accepted (w.new_id h, false)
    pub sound : validate_request (object payload) ≡ valid payload
    pub calls : after ≡ queued_at w (new_job w (object payload) key h) claimed_first
    pub went : Went w (new_job w (object payload) key h) claimed_first

  -- The key may be used again: none was given, it was not claimed, or the claim was the last thing given up.
  pub record IsFailed (r : Response) (after : History) : Type 0 where
    pub answer : r ≡ refusal 500 "publish job failed"
    pub free :
        (key ≡ "")
        ⊎ ((e : String) × (w.raises h (claim_idempotency_key key (w.new_id h)) ≡ some e))
        ⊎ ((before : History) × (after ≡ release_idempotency_key key ∷ before))

  pub Answered : Response × History → Type 0
  Answered (r, after) = IsDuplicate r after ⊎ IsQueued r after ⊎ IsFailed r after

  module _ (sound : validate_request (object payload) ≡ valid payload) where
    unkeyed : key ≡ "" → Answered (respond (publish w (object payload) none h))
    unfolding publish publish_job respond Answered
    unkeyed none_given = go (queue w (new_job w (object payload) key h) h) refl
      where
        first : claimed_first ≡ h
        first = rw none_given

        go :
            (x : Outcome (Unit {0}) × History)
            → queue w (new_job w (object payload) key h) h ≡ x
            → Answered (respond (publish w (object payload) none h))
        go (returned tt, g) e =
            let (at, taken) = queue_ok w (new_job w (object payload) key h) h (ap (λ x. x.0) e) in
            rw (◌>>◌, ◌>>=◌, e)
              (inr (
                inl (record {
                  answer = refl;
                  sound = sound;
                  calls = rw first (sym (ap (λ x. x.1) e) ∙ ap (λ x. x.1) at);
                  went = rw first taken;
                })))
        go (raised m, g) e =
            rw (◌>>◌, ◌>>=◌, e) (inr (inr (record { answer = refl; free = inl none_given })))

    keyed : key ≢ "" → Answered (respond (publish w (object payload) (some key) h))
    unfolding respond Answered
    keyed given = go (publish w (object payload) (some key) h) refl
      where
        there : claimed_first ≡ claim_idempotency_key key (w.new_id h) ∷ h
        there = elim (Bool-cases (key == "")) [
          | inl same ↦ absurd (given ((eq_iff key "").0 same))
          | inr other ↦ rw other
        ]

        go :
            (x : Outcome (String × Bool) × History)
            → publish w (object payload) (some key) h ≡ x
            → Answered (respond x)
        go (returned (id, false), g) e =
            let (same, calls, taken) =
              publish_queued w (object payload) key h given (ap (λ x. x.0) e) in
            inr (
              inl (record {
                answer = ap (λ i. accepted (i, false)) same;
                sound = sound;
                calls = rw there (sym (ap (λ x. x.1) e) ∙ calls);
                went = rw there taken;
              }))
        go (returned (id, true), g) e =
            let (same, taken, calls) =
              publish_repeated w (object payload) key h given (ap (λ x. x.0) e) in
            inl (record {
              given = given;
              taken = taken;
              answer = ap (λ i. accepted (i, true)) same;
              only = sym (ap (λ x. x.1) e) ∙ calls;
            })
        go (raised m, g) e =
            elim (Option-cases (w.raises h (claim_idempotency_key key (w.new_id h)))) [
              | inr unclaimed ↦ inr (inr (record { answer = refl; free = inr (inl unclaimed) }))
              | inl claimed ↦
                  let (before, last) =
                    publish_failed w (object payload) key h given claimed (ap (λ x. x.0) e) in
                  inr (
                    inr (record {
                      answer = refl;
                      free = inr (inr (before, sym (ap (λ x. x.1) e) ∙ last));
                    }))
            ]

module _ (id_text : ℕ → String) (amount_text : ℤ → String)
    (fields : Json → FieldError ⊎ ChatRequest) (w : World) (body : Json)
    (idempotency_key : Option String) (h : History) where
  -- Why a request is turned away: its fields, the models' validators, or the length of its key.
  abbrev Reason : Response → Type 0
  Reason r =
      ((first : FieldError) × (fields body ≡ inl first) × (r ≡ refusal 422 (error_detail first)))
      ⊎ ((chat : ChatRequest) × (e : String) × (fields body ≡ inr chat)
          × (chat_error chat ≡ some e)
          × (r ≡ refusal 422 e))
      ⊎ (200 < count (header_key idempotency_key)) × (r ≡ refusal 422 "Idempotency-Key is too long")

  pub Taken : Response × History → Type 0
  Taken result =
      (chat : ChatRequest) × (fields body ≡ inr chat)
      × (chat_error chat ≡ none)
      × (count (header_key idempotency_key) ≤ 200)
      × Answered w (dump id_text amount_text chat) (header_key idempotency_key) h result

  pub Promised : Response × History → Type 0
  Promised (r, after) = ((after ≡ h) × Reason r) ⊎ Taken (r, after)

  request_answered :
      (chat : ChatRequest)
      → fields body ≡ inr chat
      → chat_error chat ≡ none
      → Promised (publish_request id_text amount_text fields w chat (header_key idempotency_key) h)
  unfolding Promised Taken publish_request key_or_none
  request_answered chat e ok =
      let payload = dump id_text amount_text chat in
      let sound = validate_request-dump id_text amount_text chat ok in
      let key = header_key idempotency_key in
      elim (Bool-cases (ltb 200 (count key))) [
        | inl long ↦ rw long (inl (refl, inr (inr (ground arith, refl))))
        | inr short ↦ elim (Bool-cases (key == "")) [
          | inl none_given ↦
              rw (short, none_given)
                (inr (
                  chat,
                  e,
                  ok,
                  ground arith,
                  unkeyed w payload key h sound ((eq_iff key "").0 none_given),
                ))
          | inr given ↦
              rw (short, given)
                (inr (
                  chat,
                  e,
                  ok,
                  ground arith,
                  keyed w payload key h sound
                      (λ empty_key. absurd (ground (arith, (eq_iff key "").1 empty_key, given))),
                ))
        ]
      ]

  result : Response × History
  result = publish_chat id_text amount_text fields w body idempotency_key h

  turned_away :
      (first : FieldError)
      → fields body ≡ inl first
      → result ≡ (refusal 422 (error_detail first), h)
  unfolding result publish_chat model_validate
  turned_away first e = rw (result, publish_chat, model_validate, e)

  turned_down :
      (chat : ChatRequest) (error : String)
      → fields body ≡ inr chat
      → chat_error chat ≡ some error
      → result ≡ (refusal 422 error, h)
  unfolding result publish_chat model_validate
  turned_down chat error e bad =
      rw (result, publish_chat, model_validate, e, bad)
        (ap (λ d. (refusal 422 d, h)) (error_detail-value_error error))

  let_through :
      (chat : ChatRequest)
      → fields body ≡ inr chat
      → chat_error chat ≡ none
      → result ≡ publish_request id_text amount_text fields w chat (header_key idempotency_key) h
  unfolding result publish_chat model_validate
  let_through chat e ok = rw (result, publish_chat, model_validate, e, ok)

  -- Whatever the calls to Redis and the broker do, one of four things holds. The request was turned away with
  -- 422 and nothing was called, because of its fields, a validator, whose text is the answer, or a key longer
  -- than 200. Or it was right and its key was taken: the answer names the owner's job as a duplicate, and
  -- the claim was the only call. Or the answer is the new job: its status and its time were stored
  -- and the broker then took it, none of which raised, with a payload that `validate_request` of the worker accepts. Or the answer is 500, and then
  -- there was no key, the claim itself failed, or giving the key up was the last call.
  pub publish_chat-Promised :
      Promised (publish_chat id_text amount_text fields w body idempotency_key h)
  unfolding Promised result
  publish_chat-Promised = go (fields body) refl
    where
      go : (x : FieldError ⊎ ChatRequest) → fields body ≡ x → Promised result
      go (inl first) e =
          subst Promised (sym (turned_away first e)) (inl (refl, inl (first, e, refl)))
      go (inr chat) e = elim (Option-cases (chat_error chat)) [
        | inl ok ↦ subst Promised (sym (let_through chat e ok)) (request_answered chat e ok)
        | inr (error, bad) ↦
            subst Promised (sym (turned_down chat error e bad))
              (inl (refl, inr (inl (chat, error, e, bad, refl))))
      ]
