-- ===== src/Jobs/Endpoint.antt =====
-- The endpoint `publish_chat` (langgraph-python/app/jobs/router.py): the reading of the body and of the
-- Idempotency-Key header, and the answer. What Pydantic says of the fields of a body is a parameter, as is
-- the text that it gives an id and an amount.
pub mod Answers
use Prim.Native.Char.{code}
use Prim.Native.String.{count, [] as empty, ◌∷◌ as cons}
use Prim.Native.String.{◌++◌}
use agents_at_scale.Prelude.{
  ℕ, String, Bool, Option, none, some, List, [], ◌∷◌, ◌⊎◌, inl, inr, ltb, if◌then◌else◌,
}
use agents_at_scale.Prelude.Eq.{◌==◌, nat_eq, string_eq}
use agents_at_scale.Prelude.Int.{ℤ}
use agents_at_scale.Jobs.Json.{Json, text, object, Members, no_members, member, is_blank, is_space}
use agents_at_scale.Jobs.Request.{ChatRequest, chat_error, dump}
use agents_at_scale.Jobs.Platform.{History, Outcome, returned, raised, World}
use agents_at_scale.Jobs.Publish.{publish}

-- An error of Pydantic: the first one of `errors()`.
pub record FieldError : Type 0 where
  pub type_name : String
  pub loc : List String
  pub msg : String

pub record Response : Type 0 where
  pub status_code : ℕ
  pub body : Members

-- `str.strip`
lstrip : String → String
lstrip empty = empty
lstrip (cons c s) = if is_space c then lstrip s else cons c s

rstrip : String → String
rstrip empty = empty
rstrip (cons c s) = if is_blank (cons c s) then empty else cons c (rstrip s)

unfoldable pub strip : String → String
unfolding lstrip rstrip
strip s = rstrip (lstrip s)

-- What follows a prefix, if the text has it.
after_prefix : String → String → Option String
after_prefix empty s = some s
after_prefix (cons c p) empty = none
after_prefix (cons c p) (cons d s) =
    let rest = after_prefix p s in if code c == code d then rest else none

-- `str.removeprefix`
removeprefix : String → String → String
unfolding after_prefix
removeprefix p s = elim (after_prefix p s) [ none ↦ s | some rest ↦ rest ]

-- `".".join`
unfoldable pub join_path : List String → String
join_path [] = ""
join_path (part ∷ []) = part
join_path (part ∷ next ∷ rest) = part ++ "." ++ join_path (next ∷ rest)

unfoldable pub error_detail : FieldError → String
unfolding removeprefix join_path
error_detail first =
    if first.type_name == "missing"
    then join_path first.loc ++ " is required"
    else removeprefix "Value error, " first.msg

-- `HTTPException`
unfoldable pub refusal : ℕ → String → Response
refusal code detail = record { status_code = code; body = member "detail" (text detail) no_members }

unfoldable pub accepted : String × Bool → Response
accepted (job_id, duplicate) = record {
  status_code = 202;
  body =
      member "id" (text job_id)
        (member "status" (text (if duplicate then "duplicate" else "published")) no_members);
}

unfoldable pub respond : Outcome (String × Bool) × History → Response × History
unfolding refusal accepted
respond (returned answer, h) = (accepted answer, h)
respond (raised _, h) = (refusal 500 "publish job failed", h)

-- `key or None`
unfoldable pub key_or_none : String → Option String
key_or_none key = if key == "" then none else some key

-- `(idempotency_key or "").strip()`
unfoldable pub header_key : Option String → String
unfolding strip
header_key none = ""
header_key (some header) = strip header

module _ (id_text : ℕ → String) (amount_text : ℤ → String)
    (fields : Json → FieldError ⊎ ChatRequest) where
  -- `ChatRequest.model_validate`: the models' validators run once the fields are right.
  unfoldable pub model_validate : Json → FieldError ⊎ ChatRequest
  model_validate body = elim (fields body) [
    | inl first ↦ inl first
    | inr chat ↦ elim (chat_error chat) [
      | none ↦ inr chat
      | some e ↦ inl (record { type_name = "value_error"; loc = []; msg = "Value error, " ++ e })
    ]
  ]

  unfoldable pub publish_request : World → ChatRequest → String → History → Response × History
  unfolding refusal respond key_or_none
  publish_request w chat key h =
      if ltb 200 (count key)
      then (refusal 422 "Idempotency-Key is too long", h)
      else respond (publish w (object (dump id_text amount_text chat)) (key_or_none key) h)

  unfoldable pub publish_chat : World → Json → Option String → History → Response × History
  unfolding publish_request error_detail refusal model_validate header_key
  publish_chat w body idempotency_key h = elim (model_validate body) [
    | inl first ↦ (refusal 422 (error_detail first), h)
    | inr chat ↦ publish_request w chat (header_key idempotency_key) h
  ]
