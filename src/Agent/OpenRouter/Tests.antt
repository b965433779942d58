-- ===== src/Agent/OpenRouter/Tests.antt =====
-- An answer of the model that ranks one offer (langgraph-python/app/platform/llm/openrouter.py).
use agents_at_scale.Prelude.{String, ◌≡◌, refl, true, Option, none, some, [], ◌∷◌, if◌then◌else◌}
use agents_at_scale.Prelude.Eq.{◌==◌, string_eq, nat_eq}
use agents_at_scale.Airline.Errors.{ok, err, ◌>>=◌, value_error}
use agents_at_scale.Config.{Settings}
use agents_at_scale.Config.Tests.{default_settings}
use agents_at_scale.Jobs.Json.{
  Json, null, text, array, object, no_elements, element, no_members, member, get, has,
}
use agents_at_scale.Agent.State.{State}
use agents_at_scale.Agent.Nodes.{all_known, is_offered}
use agents_at_scale.Agent.Nodes
use agents_at_scale.Agent.Graph.{initial}
use agents_at_scale.Agent.Graph.Tests.{offer, request, answers}
use agents_at_scale.Agent.OpenRouter.{
  Libraries, open_router, invalid_response, without_slashes, item, first_item, part_texts,
  join_texts, parse_content, parse_response, complete, ranking_of, checked_evaluation,
  evaluate_options,
}
use agents_at_scale.Agent.OpenRouter.Answers.{with_client, keep, evaluate_options_keeps}

abbrev answer_of : Json → Json
answer_of content = object (
    member "choices"
      (array (
        element
          (object (member "message" (object (member "content" content no_members)) no_members))
          no_elements))
      no_members)

-- The answer comes as one text, as two parts or as none.
abbrev parsed : String → Option Json
parsed s =
    if s == "whole"
    then some (answer_of (text "{}"))
    else if s == "parts"
    then some (
        answer_of (
          array (
            element (object (member "text" (text "{") no_members))
              (element (object (member "text" (text "}") no_members)) no_elements))))
    else if s == "nothing"
    then some (answer_of null)
    else if s == "{}"
    then some (object no_members)
    else none

abbrev answering : String → Libraries
answering response = record {
  post = λ url authorization body. ok response;
  loads = parsed;
  dumps = λ json. "";
  dump_evaluation = λ r options credits. null;
  read_request = λ json. ok request;
  read_ranking = λ members.
      ok (record { ranked_option_ids = 2 ∷ []; summary = ""; has_matching_option = true });
}

abbrev with_key : Settings
with_key = record default_settings { openrouter_deployment = "model"; openrouter_api_key = "key" }

no_deployment : open_router default_settings ≡ err (value_error "OPENROUTER_DEPLOYMENT is required")
unfolding open_router
no_deployment = refl

opened : open_router with_key ≡ ok with_key
unfolding open_router
opened = refl

slashes_dropped : without_slashes "https://host//" ≡ "https://host"
unfolding without_slashes
slashes_dropped = refl

in_parts : parse_response (answering "parts") "parts" ≡ ok (object no_members)
unfolding parse_response item first_item parse_content part_texts join_texts get has
in_parts = refl

without_content : parse_response (answering "nothing") "nothing" ≡ err invalid_response
unfolding parse_response item first_item parse_content get has
without_content = refl

abbrev loaded : State
loaded = record (initial "move me" 2) {
  request = some request;
  search_result = some (offer ∷ []);
  credits_result = some [];
}

evaluate_options_keeps_example :
    Nodes.evaluate_options (with_client (answering "whole") with_key answers) loaded ≡ (
      evaluate_options (answering "whole") with_key request (offer ∷ []) []
      >>= keep (answering "whole") with_key answers loaded)
evaluate_options_keeps_example =
    evaluate_options_keeps (answering "whole") with_key answers loaded request (offer ∷ []) [] refl
      refl refl

-- The client does answer here.
evaluated :
    evaluate_options (answering "whole") with_key request (offer ∷ []) []
    ≡ ok (record {
      request = request;
      options = offer ∷ [];
      credits = [];
      ranked_option_ids = 2 ∷ [];
      summary = "";
      has_matching_option = true;
    })
unfolding evaluate_options complete ranking_of checked_evaluation parse_response item first_item
    parse_content get has all_known is_offered
evaluated = refl
