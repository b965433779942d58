-- ===== src/Agent/OpenRouter/Answers.antt =====
-- What the node gets from the client (langgraph-python/app/platform/llm/openrouter.py).
use agents_at_scale.Prelude.{◌≡◌, refl, inl, inr, not, some, List, Bool-cases}
use agents_at_scale.Airline.Errors.{Result, ok, err, ◌>>=◌, ◌>>◌, raise_if, value_error}
use agents_at_scale.Airline.Models.{TravelCredit}
use agents_at_scale.Airline.Schemas.{RebookingOption}
use agents_at_scale.Config.{Settings}
use agents_at_scale.Agent.State.{Request, Evaluation, State}
use agents_at_scale.Agent.Nodes.{Answers, all_known}
use agents_at_scale.Agent.Nodes
use agents_at_scale.Jobs.Json.{Json}
use agents_at_scale.Agent.OpenRouter.Prompts.{evaluate_prompt}
use agents_at_scale.Agent.OpenRouter.{
  Libraries, Ranking, checked_evaluation, complete, ranking_of, understand_request,
  evaluate_options,
}

-- The agent's world with this client as its model
abbrev pub with_client : Libraries → Settings → Answers → Answers
with_client lib settings a = record a {
  understood = understand_request lib settings;
  evaluated = evaluate_options lib settings;
}

module _ (lib : Libraries) (settings : Settings) (a : Answers) (state : State) where
  -- What the node does with an evaluation that it takes as it is
  abbrev pub keep : Evaluation → Result State
  keep result = ok (record state { evaluation = some result })

  module _ (request : Request) (options : List RebookingOption) (credits : List TravelCredit) where
    -- What the node does with any: the ids are checked, and what was asked is put in.
    abbrev vet : Evaluation → Result State
    vet result =
        raise_if (not (all_known options result.ranked_option_ids))
          (value_error "evaluation returned an unknown option")
        >> ok (record state {
          evaluation =
              some (record result { request = request; options = options; credits = credits });
        })

    vet_checked :
        (ranking : Ranking)
        → (checked_evaluation request options credits ranking >>= vet)
          ≡ (checked_evaluation request options credits ranking >>= keep)
    unfolding checked_evaluation
    vet_checked ranking = elim (Bool-cases (all_known options ranking.ranked_option_ids)) [
      | inl known ↦ rw (known, known)
      | inr unknown ↦ rw unknown
    ]

    abbrev evaluated : Result Ranking → Result Evaluation
    evaluated x = x >>= checked_evaluation request options credits

    vet_ranked : (x : Result Ranking) → (evaluated x >>= vet) ≡ (evaluated x >>= keep)
    vet_ranked (err e) = refl
    vet_ranked (ok ranking) = vet_checked ranking

    vet_response :
        (x : Result Json)
        → ((x >>= λ response. evaluated (ranking_of lib settings response)) >>= vet)
          ≡ ((x >>= λ response. evaluated (ranking_of lib settings response)) >>= keep)
    vet_response (err e) = refl
    vet_response (ok response) = vet_ranked (ranking_of lib settings response)

module _ (lib : Libraries) (settings : Settings) (a : Answers) (state : State) (request : Request)
    (options : List RebookingOption) (credits : List TravelCredit) where
  -- With this client as the model, the node keeps the client's evaluation as it is and raises what the client
  -- raises: its own check of the ids never fails, and its overwriting changes nothing. The state must have
  -- a request, options and credits.
  pub evaluate_options_keeps :
      state.request ≡ some request
      → state.search_result ≡ some options
      → state.credits_result ≡ some credits
      → Nodes.evaluate_options (with_client lib settings a) state
        ≡ (evaluate_options lib settings request options credits >>= keep lib settings a state)
  unfolding Nodes.evaluate_options evaluate_options
  evaluate_options_keeps asked found spendable =
      rw (asked, found, spendable)
        (vet_response lib settings a
          (record state {
            request = some request;
            search_result = some options;
            credits_result = some credits;
          })
          request options credits
          (complete lib settings evaluate_prompt
            (lib.dumps (lib.dump_evaluation request options credits))))
