-- ===== src/Jobs/Request.antt =====
-- The two checks of a chat request: the API's models (langgraph-python/app/jobs/router.py) and the
-- worker's `validate_request` (langgraph-python/app/jobs/service.py).
pub mod Agreement
use agents_at_scale.Prelude.{
  ℕ, String, Bool, true, false, not, ◌&&◌, ◌||◌, Option, none, some, if◌then◌else◌,
}
use agents_at_scale.Prelude.Int.{ℤ}
use agents_at_scale.Airline.Schemas.{Selection}
use agents_at_scale.Jobs.Json.{
  Json, null, bool, text, object, Members, no_members, member, get, is_blank, is_null, is_truthy,
  is_bool, has_text,
}

-- `InvalidJobError` holds its message.
pub data Checked : Type 0 where
  valid : Members → Checked
  invalid : String → Checked

-- Python's `==` of two truth values
abbrev pub same : Bool → Bool → Bool
same true b = b
same false b = not b

abbrev confirmed_without_selection : Members → Bool
confirmed_without_selection resume =
    is_truthy (get "confirmed" resume) && not (is_truthy (get "selection" resume))

check_resume : Members → Json → Checked
check_resume payload null = valid payload
check_resume payload (object resume) =
    if not (is_bool (get "confirmed" resume))
    then invalid "resume.confirmed is required"
    else if confirmed_without_selection resume
    then invalid "resume.selection is required when confirmed"
    else valid payload
check_resume payload _ = invalid "resume must be an object"

check_payload : Members → Checked
unfolding check_resume
check_payload payload =
    if not (has_text (get "user_id" payload))
    then invalid "user_id is required"
    else if not (has_text (get "session_id" payload))
    then invalid "session_id is required"
    else if same (has_text (get "message" payload)) (not (is_null (get "resume" payload)))
    then invalid "exactly one of message or resume is required"
    else check_resume payload (get "resume" payload)

pub validate_request : Json → Checked
unfolding check_payload
validate_request (object payload) = check_payload payload
validate_request _ = invalid "payload must be an object"

pub record ResumeRequest : Type 0 where
  pub confirmed : Bool
  pub selection : Option Selection

pub record ChatRequest : Type 0 where
  pub user_id : String
  pub session_id : String
  pub message : Option String
  pub resume : Option ResumeRequest

abbrev pub is_some {ℓ} : {A : Type ℓ} → Option A → Bool
is_some none = false
is_some (some _) = true

-- `bool(message and message.strip())`
abbrev pub has_message : Option String → Bool
has_message none = false
has_message (some message) = not (is_blank message)

-- `require_selection`: the error that it raises
unfoldable pub require_selection : Option ResumeRequest → Option String
require_selection none = none
require_selection (some resume) =
    if resume.confirmed && not (is_some resume.selection)
    then some "resume.selection is required when confirmed"
    else none

-- `require_one_action`
unfoldable pub require_one_action : ChatRequest → Option String
require_one_action chat =
    if is_blank chat.user_id || is_blank chat.session_id
    then some "user_id and session_id are required"
    else if same (has_message chat.message) (is_some chat.resume)
    then some "exactly one of message or resume is required"
    else none

-- The validators of the nested model run before those of the outer one.
unfoldable pub chat_error : ChatRequest → Option String
unfolding require_selection require_one_action
chat_error chat = elim (require_selection chat.resume) [
  | some e ↦ some e
  | none ↦ require_one_action chat
]

-- `model_dump(mode="json", exclude_none=True)`; the text of an id and of an amount is Pydantic's.
module _ (id_text : ℕ → String) (amount_text : ℤ → String) where
  abbrev optional {ℓ} : {A : Type ℓ} → String → (A → Json) → Option A → Members → Members
  optional key dumped none rest = rest
  optional key dumped (some value) rest = member key (dumped value) rest

  dump_selection : Selection → Json
  dump_selection sel = object (
      member "segment_id" (text (id_text sel.segment_id)) (
        member "new_flight_id" (text (id_text sel.new_flight_id)) (
          member "new_fare_class_id" (text (id_text sel.new_fare_class_id)) (
            optional "travel_credit_id" (λ id. text (id_text id)) sel.travel_credit_id
              (member "travel_credit_amount" (text (amount_text sel.travel_credit_amount))
                no_members)))))

  unfoldable pub dump_resume : ResumeRequest → Json
  unfolding dump_selection
  dump_resume resume = object (
      member "confirmed" (bool resume.confirmed)
        (optional "selection" dump_selection resume.selection no_members))

  pub dump : ChatRequest → Members
  unfolding dump_resume
  dump chat = member "user_id" (text chat.user_id) (
      member "session_id" (text chat.session_id) (
        optional "message" text chat.message
          (optional "resume" dump_resume chat.resume no_members)))
