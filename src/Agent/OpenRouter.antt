-- ===== src/Agent/OpenRouter.antt =====
-- The language model's client (langgraph-python/app/platform/llm/openrouter.py). What the HTTP client, orjson
-- and Pydantic do is a parameter, the record Libraries.
pub mod Prompts
pub mod Answers
mod Tests
use Prim.Native.Char.{code}
use Prim.Native.String.{[] as empty, ◌∷◌ as cons, ◌++◌}
use agents_at_scale.Prelude.{
  ℕ, String, Bool, true, false, not, ◌&&◌, Option, none, some, List, if◌then◌else◌,
}
use agents_at_scale.Prelude.Eq.{◌==◌, nat_eq, string_eq}
use agents_at_scale.Airline.Errors.{
  Result, ok, err, ◌>>=◌, ◌>>◌, raise_if, or_raise, Error, value_error, attribute_error, type_error,
}
use agents_at_scale.Airline.Models.{TravelCredit}
use agents_at_scale.Airline.Schemas.{RebookingOption}
use agents_at_scale.Config.{Settings}
use agents_at_scale.Jobs.Json.{
  Json, bool, text, array, object, Elements, no_elements, element, Members, no_members, member, get,
  has,
}
use agents_at_scale.Agent.State.{Request, Evaluation}
use agents_at_scale.Agent.Nodes.{all_known}
use agents_at_scale.Agent.OpenRouter.Prompts.{understand_prompt, evaluate_prompt}

pub record Ranking : Type 0 where
  pub ranked_option_ids : List ℕ
  pub summary : String
  pub has_matching_option : Bool

pub record Libraries : Type 0 where
  -- the content of the answer to a POST at a URL with an authorization, or what it or `raise_for_status` raises
  pub post : String → String → String → Result String
  pub loads : String → Option Json
  pub dumps : Json → String
  -- `model_dump(mode="json")` of the three arguments
  pub dump_evaluation : Request → List RebookingOption → List TravelCredit → Json
  pub read_request : Json → Result Request
  -- the fields of `EvaluationResult` that the client does not give
  pub read_ranking : Members → Result Ranking

-- `OpenRouterLLM.__init__`
unfoldable pub open_router : Settings → Result Settings
open_router settings = do
  raise_if (settings.openrouter_deployment == "") (value_error "OPENROUTER_DEPLOYMENT is required")
  raise_if (settings.openrouter_api_key == "") (value_error "OPENROUTER_API_KEY is required")
  raise_if (settings.openrouter_base_url == "") (value_error "OPENROUTER_BASE_URL is required")
  ok settings

abbrev pub invalid_response : Error
invalid_response = value_error "OpenRouter returned an invalid structured response"

-- `rstrip("/")`
abbrev only_slashes : String → Bool
only_slashes empty = true
only_slashes (cons c s) = code c == 47 && only_slashes s

unfoldable pub without_slashes : String → String
without_slashes empty = empty
without_slashes (cons c s) = if only_slashes (cons c s) then empty else cons c (without_slashes s)

-- `value[key]`, where a `KeyError` and a `TypeError` are answered alike.
unfoldable pub item : String → Json → Result Json
item key (object members) = if has key members then ok (get key members) else err invalid_response
item key _ = err invalid_response

-- `value[0]`
unfoldable pub first_item : Json → Result Json
first_item (array (element value _)) = ok value
first_item (text (cons c _)) = ok (text (cons c empty))
first_item _ = err invalid_response

abbrev as_text : Json → Result String
as_text (text s) = ok s
as_text _ = err invalid_response

-- `part.get("text", "")`
abbrev part_text : Json → Result Json
part_text (object members) = ok (if has "text" members then get "text" members else text "")
part_text _ = err attribute_error

-- The parts are all read before they are joined.
unfoldable pub part_texts : Elements → Result Elements
part_texts no_elements = ok no_elements
part_texts (element part rest) = do
  value ← part_text part
  values ← part_texts rest
  ok (element value values)

unfoldable pub join_texts : Elements → Result String
join_texts no_elements = ok ""
join_texts (element value rest) = do start ← as_text value; end ← join_texts rest; ok (start ++ end)

-- The ids are checked, and the evaluation has what was asked in place of what the model says of it.
unfoldable pub checked_evaluation :
    Request → List RebookingOption → List TravelCredit → Ranking → Result Evaluation
checked_evaluation request options credits ranking = do
  raise_if (not (all_known options ranking.ranked_option_ids))
      (value_error "model returned an unknown option")
  ok (record {
    request = request;
    options = options;
    credits = credits;
    ranked_option_ids = ranking.ranked_option_ids;
    summary = ranking.summary;
    has_matching_option = ranking.has_matching_option;
  })

module _ (lib : Libraries) where
  unfoldable pub parse_content : Json → Result Json
  unfolding part_texts join_texts
  parse_content (array parts) = do
    values ← part_texts parts
    content ← join_texts values
    or_raise (lib.loads content) invalid_response
  parse_content (text content) = or_raise (lib.loads content) invalid_response
  parse_content _ = err invalid_response

  unfoldable pub parse_response : String → Result Json
  unfolding item first_item parse_content
  parse_response response = do
    body ← or_raise (lib.loads response) invalid_response
    choices ← item "choices" body
    choice ← first_item choices
    message ← item "message" choice
    content ← item "content" message
    parse_content content

  abbrev chat_message : String → String → Json
  chat_message role content =
      object (member "role" (text role) (member "content" (text content) no_members))

  unfoldable pub request_body : Settings → String → String → Json
  request_body settings system_prompt user_prompt = object (
      member "model" (text settings.openrouter_deployment) (
        member "messages"
          (array (
            element (chat_message "system" system_prompt)
              (element (chat_message "user" user_prompt) no_elements)))
          (member "stream" (bool false) (
            member "response_format" (object (member "type" (text "json_object") no_members))
              no_members))))

  module _ (settings : Settings) where
    -- `_complete`
    unfoldable pub complete : String → String → Result Json
    unfolding without_slashes request_body parse_response
    complete system_prompt user_prompt = do
      response ←
          lib.post (without_slashes settings.openrouter_base_url ++ "/chat/completions")
            ("Bearer " ++ settings.openrouter_api_key)
            (lib.dumps (request_body settings system_prompt user_prompt))
      parse_response response

    unfoldable pub understand_request : String → Result Request
    unfolding complete
    understand_request user_input = do
      payload ← complete understand_prompt user_input
      lib.read_request payload

    -- `{**response, ...}` and its validation
    unfoldable pub ranking_of : Json → Result Ranking
    ranking_of (object members) = lib.read_ranking members
    ranking_of _ = err (type_error "the response is not a mapping")

    unfoldable pub evaluate_options :
        Request → List RebookingOption → List TravelCredit → Result Evaluation
    unfolding complete ranking_of checked_evaluation
    evaluate_options request options credits = do
      response ← complete evaluate_prompt (lib.dumps (lib.dump_evaluation request options credits))
      ranking ← ranking_of response
      checked_evaluation request options credits ranking
