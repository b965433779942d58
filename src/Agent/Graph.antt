-- ===== src/Agent/Graph.antt =====
-- The graph (langgraph-python/app/agent/graph.py) as a step relation: a node that does not raise leads to the next
-- one, by its edge or by the route in the state.
pub mod Knowledge
pub mod Safety
pub mod Retries
pub mod Tests
use agents_at_scale.Prelude.{ℕ, String, ◌≡◌, Option, none, some}
use agents_at_scale.Airline.Errors.{Error, Result, ok, err}
use agents_at_scale.Agent.State.{Route, State}
use agents_at_scale.Agent.Nodes
use agents_at_scale.Agent.Outcomes
use agents_at_scale.Agent.Nodes.{Answers}

pub data Node : Type 0 where
  understand_request get_reservation load_context refresh_context evaluate_options
        ask_confirmation :
      Node
  validate_change explain_invalid_change execute_rebooking verify_rebooking : Node
  finalize_failed finalize_declined finished : Node

-- The target of a conditional edge; a route that the edge does not have is an error of the graph.
unfoldable pub validation_target : Option Route → Option Node
validation_target (some Route.valid) = some execute_rebooking
validation_target (some Route.declined) = some finalize_declined
validation_target (some Route.invalid) = some explain_invalid_change
validation_target none = some explain_invalid_change
validation_target _ = none

unfoldable pub explanation_target : Option Route → Option Node
explanation_target (some Route.retry) = some refresh_context
explanation_target (some Route.declined) = some finalize_declined
explanation_target (some Route.invalid) = some finished
explanation_target none = some finished
explanation_target _ = none

unfoldable pub execution_target : Node → Option Route → Option Node
execution_target next (some Route.completed) = some next
execution_target next none = some next
execution_target next (some Route.failed) = some finalize_failed
execution_target next _ = none

pub run_node : Answers → Node → State → Result State
run_node a understand_request = Nodes.understand_request a
run_node a get_reservation = Nodes.get_reservation a
run_node a load_context = Nodes.load_context a
run_node a refresh_context = Nodes.refresh_context
run_node a evaluate_options = Nodes.evaluate_options a
run_node a ask_confirmation = Nodes.ask_confirmation a
run_node a validate_change = Nodes.validate_change a
run_node a explain_invalid_change = Outcomes.explain_invalid_change
run_node a execute_rebooking = Nodes.execute_rebooking a
run_node a verify_rebooking = Nodes.verify_rebooking a
run_node a finalize_failed = Outcomes.finalize_failed
run_node a finalize_declined = Outcomes.finalize_declined
run_node a finished = λ state. ok state

pub target : Node → State → Option Node
unfolding validation_target explanation_target execution_target
target understand_request state = some get_reservation
target get_reservation state = some load_context
target load_context state = some evaluate_options
target refresh_context state = some load_context
target evaluate_options state = some ask_confirmation
target ask_confirmation state = some validate_change
target validate_change state = validation_target state.route
target explain_invalid_change state = explanation_target state.route
target execute_rebooking state = execution_target verify_rebooking state.route
target verify_rebooking state = execution_target finished state.route
target finalize_failed state = some finished
target finalize_declined state = some finished
target finished state = none

-- One step, with whatever the outside answers
pub data Step : Node → State → Node → State → Type 0 where
  step :
      {node next : Node} {state after : State} (a : Answers)
      → run_node a node state ≡ ok after
      → target node after ≡ some next
      → Step node state next after

-- What a conversation can come to. Between two steps the airline's data may change, and so may the answers.
pub data Reaches : Node → State → Node → State → Type 0 where
  here : {node : Node} {state : State} → Reaches node state node state
  onward :
      {node middle last : Node} {state between after : State}
      → Reaches node state middle between
      → Step middle between last after
      → Reaches node state last after

-- The state that `AgentRunner.run` starts a new conversation with
pub initial : String → ℕ → State
initial input max_retries = record {
  user_input = input;
  request = none;
  reservation_context = none;
  search_result = none;
  credits_result = none;
  evaluation = none;
  confirmation = none;
  validation = none;
  execution = none;
  verification = none;
  final = none;
  route = none;
  error = none;
  retry_count = 0;
  max_retries = max_retries;
}
