-- ===== src/Jobs/Request/Agreement.antt =====
-- What the API lets through the worker takes, and for the action that it was sent for.
use agents_at_scale.Prelude.{
  ℕ, String, Option, some, ◌≡◌, ◌↔◌, ◌⊎◌, inl, inr, refl, sym, subst, ◌∙◌, true, false, none, arith,
}
use agents_at_scale.Prelude.Int.{ℤ}
use agents_at_scale.Jobs.Json.{
  Json, null, bool, number, array, text, object, Members, get, has, is_truthy, is_bool, has_text,
}
use agents_at_scale.Jobs.Platform.{Call, agent_run, agent_resume, World}
use agents_at_scale.Jobs.Worker.{WorkerOptions, action}
use agents_at_scale.Jobs.Request.{
  ResumeRequest, has_message, valid, check_payload, check_resume, validate_request, ChatRequest,
  require_selection, require_one_action, is_some, chat_error, dump_selection, dump_resume, dump,
}

module _ (id_text : ℕ → String) (amount_text : ℤ → String) where
  -- A request that the API accepts is valid for the worker.
  pub validate_request-dump :
      (chat : ChatRequest)
      → chat_error chat ≡ none
      → validate_request (object (dump id_text amount_text chat))
        ≡ valid (dump id_text amount_text chat)
  unfolding validate_request check_payload check_resume chat_error require_selection
      require_one_action dump dump_resume dump_selection get
  validate_request-dump chat ok = ground arith

  -- What the worker will ask of the agent for a request: to resume with the answer, or to run on the message.
  abbrev pub asked_for : ChatRequest → Option ResumeRequest → Option String → Call
  asked_for chat (some resume) message =
      agent_resume chat.user_id chat.session_id (dump_resume id_text amount_text resume)
  asked_for chat none (some message) = agent_run chat.user_id chat.session_id (text message)
  asked_for chat none none = agent_run chat.user_id chat.session_id null

  -- Of a request that the API accepts, the payload is valid for the worker, and the worker calls the agent for its
  -- user and session: to resume with the answer if it was sent with one, and else to run on its message, which
  -- is there and not blank.
  pub chat_error-dump :
      (w : World) (options : WorkerOptions) (chat : ChatRequest)
      → chat_error chat ≡ none
      → (validate_request (object (dump id_text amount_text chat))
          ≡ valid (dump id_text amount_text chat))
        × (action w options (dump id_text amount_text chat)
            ≡ asked_for chat chat.resume chat.message)
        × ((is_some chat.resume ≡ true) ⊎ (has_message chat.message ≡ true))
  unfolding chat_error require_selection require_one_action dump get has dump_resume
  chat_error-dump w options chat ok = (validate_request-dump chat ok, ground arith, ground arith)

-- Who asks, in which session, and either a message or an answer to a question.
pub record IsRequest (payload : Members) : Type 0 where
  pub user : has_text (get "user_id" payload) ≡ true
  pub session : has_text (get "session_id" payload) ≡ true
  pub action :
      (has_text (get "message" payload) ≡ true) × (get "resume" payload ≡ null)
      ⊎ (has_text (get "message" payload) ≡ false)
        × ((resume : Members) × (get "resume" payload ≡ object resume)
            × (is_bool (get "confirmed" resume) ≡ true)
            × ((get "confirmed" resume ≡ bool false) ⊎ (is_truthy (get "selection" resume) ≡ true)))

module _ (payload resume : Members) (e : get "resume" payload ≡ object resume) where
  answer_complete :
      check_payload payload ≡ valid payload
      → (get "confirmed" resume ≡ bool false) ⊎ (is_truthy (get "selection" resume) ≡ true)
  unfolding check_payload check_resume
  answer_complete h = go (get "confirmed" resume) refl
    where
      go :
          (j : Json)
          → get "confirmed" resume ≡ j
          → (get "confirmed" resume ≡ bool false) ⊎ (is_truthy (get "selection" resume) ≡ true)
      go null k = absurd (ground arith)
      go (bool true) k = inr (ground arith)
      go (bool false) k = inl k
      go (number n i) k = absurd (ground arith)
      go (text t) k = absurd (ground arith)
      go (array a) k = absurd (ground arith)
      go (object r) k = absurd (ground arith)

  answered :
      has_text (get "user_id" payload) ≡ true
      → has_text (get "session_id" payload) ≡ true
      → has_text (get "message" payload) ≡ false
      → is_bool (get "confirmed" resume) ≡ true
      → ((get "confirmed" resume ≡ bool false) ⊎ (is_truthy (get "selection" resume) ≡ true))
      → check_payload payload ≡ valid payload
  unfolding check_payload check_resume
  answered user session m b s = go (get "confirmed" resume) refl
    where
      go : (j : Json) → get "confirmed" resume ≡ j → check_payload payload ≡ valid payload
      go null k = ground arith
      go (bool c) k = ground arith
      go (number n i) k = ground arith
      go (text t) k = ground arith
      go (array a) k = ground arith
      go (object r) k = ground arith

-- The worker's check passes exactly the payloads that are requests.
pub validate_request_iff :
    (payload : Members) → (validate_request (object payload) ≡ valid payload) ↔ IsRequest payload
unfolding validate_request check_payload check_resume
validate_request_iff payload = go (get "resume" payload) refl
  where
    go :
        (j : Json)
        → get "resume" payload ≡ j
        → (validate_request (object payload) ≡ valid payload) ↔ IsRequest payload
    go null e = ground arith
    go (bool b) e = ground arith
    go (number n k) e = ground arith
    go (text t) e = ground arith
    go (array a) e = ground arith
    go (object r) e = (
      λ h. record {
        user = ground arith;
        session = ground arith;
        action = inr (ground arith, (r, e, ground arith, answer_complete payload r e h));
      },
      λ q. elim q.action [
        | inl (_, k) ↦ absurd (ground (arith, e, k))
        | inr (m, (r', k, b, s)) ↦
            let equal : object r' ≡ object r = sym k ∙ e in
            let inner : r' ≡ r = cc equal in
            answered payload r e q.user q.session m
              (subst (λ x. is_bool (get "confirmed" x) ≡ true) inner b)
              (subst
                (λ x. (get "confirmed" x ≡ bool false) ⊎ (is_truthy (get "selection" x) ≡ true))
                inner s)
      ],
    )
