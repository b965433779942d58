-- ===== src/Agent/Graph/Retries.antt =====
-- How often a conversation is offered new alternatives.
use agents_at_scale.Prelude.{
  ℕ, String, ◌≡◌, ◌∙◌, sym, subst, Bool-cases, ◌≤◌, inl, inr, refl, ◌+◌, arith, Option, none, some,
  ltb,
}
use agents_at_scale.Airline.Errors.{ok, or_raise, value_error, >>=-eq-ok}
use agents_at_scale.Agent.State.{Route, State}
use agents_at_scale.Agent.Nodes.{Answers, check_confirmation, check_selection}
use agents_at_scale.Agent.Nodes
use agents_at_scale.Agent.Outcomes
use agents_at_scale.Agent.Graph.{
  Node, understand_request, get_reservation, load_context, refresh_context, evaluate_options,
  ask_confirmation, validate_change, explain_invalid_change, execute_rebooking, verify_rebooking,
  finalize_failed, finalize_declined, finished, validation_target, explanation_target,
  execution_target, run_node, target, step, Reaches, here, onward, initial,
}

abbrev Kept : State → State → Type 0
Kept state after = (after.retry_count ≡ state.retry_count) × (after.max_retries ≡ state.max_retries)

module _ (a : Answers) (state after : State) where
  understood-Kept : Nodes.understand_request a state ≡ ok after → Kept state after
  unfolding Nodes.understand_request
  understood-Kept run = ground arith

  reserved-Kept : Nodes.get_reservation a state ≡ ok after → Kept state after
  unfolding Nodes.get_reservation
  reserved-Kept run = ground arith

  loaded-Kept : Nodes.load_context a state ≡ ok after → Kept state after
  unfolding Nodes.load_context
  loaded-Kept run = ground arith

  evaluated-Kept : Nodes.evaluate_options a state ≡ ok after → Kept state after
  unfolding Nodes.evaluate_options
  evaluated-Kept run = ground arith

  asked-Kept : Nodes.ask_confirmation a state ≡ ok after → Kept state after
  unfolding Nodes.ask_confirmation
  asked-Kept run = ground arith

  validated-Kept : Nodes.validate_change a state ≡ ok after → Kept state after
  unfolding Nodes.validate_change check_confirmation check_selection
  validated-Kept run = ground arith

  executed-Kept : Nodes.execute_rebooking a state ≡ ok after → Kept state after
  unfolding Nodes.execute_rebooking
  executed-Kept run = ground arith

  verified-Kept : Nodes.verify_rebooking a state ≡ ok after → Kept state after
  unfolding Nodes.verify_rebooking
  verified-Kept run = ground arith

abbrev count_after : Node → ℕ → ℕ
count_after refresh_context n = n + 1
count_after _ n = n

-- How often the alternatives were refreshed on the way
pub refreshes : {node last : Node} {state after : State} → Reaches node state last after → ℕ
refreshes here = 0
refreshes (onward earlier (step {node} a run edge)) = count_after node (refreshes earlier)

-- The refreshes so far, by the count of the state
Tally : Node → State → ℕ → Type 0
Tally refresh_context state n = (state.retry_count ≡ n + 1) × (n + 1 ≤ state.max_retries)
Tally finished state n = n ≤ state.max_retries
Tally _ state n = (state.retry_count ≡ n) × (n ≤ state.max_retries)

module _ (a : Answers) (state after : State) (n : ℕ) where
  abbrev Steady : State → Type 0
  Steady s = (s.retry_count ≡ n) × (n ≤ s.max_retries)

  steady : Kept state after → Steady state → Steady after
  steady kept (count, bound) = (kept.0 ∙ count, subst (λ m. n ≤ m) (sym kept.1) bound)

  Tally-at :
      {node next : Node}
      → ◌≡◌ {A = Option Node} (some node) (some next)
      → Tally node after n
      → Tally next after n
  Tally-at {node} {next} edge t =
      let same : node ≡ next = cc edge in subst (λ m. Tally m after n) same t

  validation-Tally :
      {next : Node} → validation_target after.route ≡ some next → Steady after → Tally next after n
  unfolding validation_target Tally
  validation-Tally {next} edge s = go after.route refl
    where
      go : (route : Option Route) → after.route ≡ route → Tally next after n
      go none e =
          Tally-at {node = explain_invalid_change}
            (subst (λ o. validation_target o ≡ some next) e edge) s
      go (some Route.valid) e =
          Tally-at {node = execute_rebooking} (subst (λ o. validation_target o ≡ some next) e edge)
            s
      go (some Route.invalid) e =
          Tally-at {node = explain_invalid_change}
            (subst (λ o. validation_target o ≡ some next) e edge) s
      go (some Route.declined) e =
          Tally-at {node = finalize_declined} (subst (λ o. validation_target o ≡ some next) e edge)
            s
      go (some Route.retry) e = absurd (ground arith)
      go (some Route.completed) e = absurd (ground arith)
      go (some Route.failed) e = absurd (ground arith)

  execution-Tally :
      (last : Node) {next : Node}
      → Tally last after n
      → execution_target last after.route ≡ some next
      → Steady after
      → Tally next after n
  unfolding execution_target Tally
  execution-Tally last {next} t edge s = go after.route refl
    where
      go : (route : Option Route) → after.route ≡ route → Tally next after n
      go none e = Tally-at {node = last} (subst (λ o. execution_target last o ≡ some next) e edge) t
      go (some Route.completed) e =
          Tally-at {node = last} (subst (λ o. execution_target last o ≡ some next) e edge) t
      go (some Route.failed) e =
          Tally-at {node = finalize_failed}
            (subst (λ o. execution_target last o ≡ some next) e edge) s
      go (some Route.valid) e = absurd (ground arith)
      go (some Route.invalid) e = absurd (ground arith)
      go (some Route.declined) e = absurd (ground arith)
      go (some Route.retry) e = absurd (ground arith)

  explanation-Tally :
      {next : Node}
      → Outcomes.explain_invalid_change state ≡ ok after
      → explanation_target after.route ≡ some next
      → Steady state
      → Tally next after n
  unfolding Outcomes.explain_invalid_change Tally explanation_target
  explanation-Tally {next} run edge s =
      let (result, e, done) =
        >>=-eq-ok
          (or_raise state.validation (value_error "invalid explanation requires validation"))
          (λ r. ok (Outcomes.explained state r)) run in
      elim (Bool-cases result.user_declined) [
        | inl declined ↦
            Tally-at {node = finalize_declined} (ground arith) (ground arith, ground arith)
        | inr asked ↦ elim (Bool-cases (ltb state.max_retries (state.retry_count + 1))) [
          | inl spent ↦ Tally-at {node = finished} (ground arith) (ground arith)
          | inr left ↦ Tally-at {node = refresh_context} (ground arith) (ground arith, ground arith)
        ]
      ]

  refreshed-Tally :
      Nodes.refresh_context state ≡ ok after
      → Tally refresh_context state n
      → (after.retry_count ≡ n + 1) × (n + 1 ≤ after.max_retries)
  unfolding Nodes.refresh_context Tally
  refreshed-Tally run t = ground arith

  declined-Kept : Outcomes.finalize_declined state ≡ ok after → Kept state after
  unfolding Outcomes.finalize_declined
  declined-Kept run = ground arith

  failed-Kept : Outcomes.finalize_failed state ≡ ok after → Kept state after
  unfolding Outcomes.finalize_failed
  failed-Kept run = ground arith

step-Tally :
    (a : Answers) (state after : State) (n : ℕ) (node : Node) {next : Node}
    → Tally node state n
    → run_node a node state ≡ ok after
    → target node after ≡ some next
    → Tally next after (count_after node n)
unfolding run_node target Tally
step-Tally a state after n understand_request t run edge =
    Tally-at a state after n {node = get_reservation} edge
      (steady a state after n (understood-Kept a state after run) t)
step-Tally a state after n get_reservation t run edge =
    Tally-at a state after n {node = load_context} edge
      (steady a state after n (reserved-Kept a state after run) t)
step-Tally a state after n load_context t run edge =
    Tally-at a state after n {node = evaluate_options} edge
      (steady a state after n (loaded-Kept a state after run) t)
step-Tally a state after n refresh_context t run edge =
    Tally-at a state after (n + 1) {node = load_context} edge
      (refreshed-Tally a state after n run t)
step-Tally a state after n evaluate_options t run edge =
    Tally-at a state after n {node = ask_confirmation} edge
      (steady a state after n (evaluated-Kept a state after run) t)
step-Tally a state after n ask_confirmation t run edge =
    Tally-at a state after n {node = validate_change} edge
      (steady a state after n (asked-Kept a state after run) t)
step-Tally a state after n validate_change t run edge =
    validation-Tally a state after n edge
      (steady a state after n (validated-Kept a state after run) t)
step-Tally a state after n explain_invalid_change t run edge =
    explanation-Tally a state after n run edge t
step-Tally a state after n execute_rebooking t run edge =
    let s = steady a state after n (executed-Kept a state after run) t in
    execution-Tally a state after n verify_rebooking s edge s
step-Tally a state after n verify_rebooking t run edge =
    let s = steady a state after n (verified-Kept a state after run) t in
    execution-Tally a state after n finished s.1 edge s
step-Tally a state after n finalize_failed t run edge =
    Tally-at a state after n {node = finished} edge
      (steady a state after n (failed-Kept a state after n run) t).1
step-Tally a state after n finalize_declined t run edge =
    Tally-at a state after n {node = finished} edge
      (steady a state after n (declined-Kept a state after n run) t).1
step-Tally a state after n finished t run edge = absurd (cc)

Tally-everywhere :
    {node last : Node} {state after : State} (r : Reaches node state last after)
    → Tally node state 0
    → Tally last after (refreshes r)
unfolding refreshes
Tally-everywhere here t = t
Tally-everywhere (onward earlier (step {node} {next} {state} {after} a run edge)) t =
    step-Tally a state after (refreshes earlier) node (Tally-everywhere earlier t) run edge

Tally-bound : (node : Node) (state : State) (n : ℕ) → Tally node state n → n ≤ state.max_retries
unfolding Tally
Tally-bound understand_request state n t = t.1
Tally-bound get_reservation state n t = t.1
Tally-bound load_context state n t = t.1
Tally-bound refresh_context state n t = omega (arith, t.1)
Tally-bound evaluate_options state n t = t.1
Tally-bound ask_confirmation state n t = t.1
Tally-bound validate_change state n t = t.1
Tally-bound explain_invalid_change state n t = t.1
Tally-bound execute_rebooking state n t = t.1
Tally-bound verify_rebooking state n t = t.1
Tally-bound finalize_failed state n t = t.1
Tally-bound finalize_declined state n t = t.1
Tally-bound finished state n t = t

module _ (a : Answers) (state after : State) where
  explained_max :
      Outcomes.explain_invalid_change state ≡ ok after → after.max_retries ≡ state.max_retries
  unfolding Outcomes.explain_invalid_change
  explained_max run = ground arith

  refreshed_max : Nodes.refresh_context state ≡ ok after → after.max_retries ≡ state.max_retries
  unfolding Nodes.refresh_context
  refreshed_max run = ground arith

  step_max :
      (node : Node) → run_node a node state ≡ ok after → after.max_retries ≡ state.max_retries
  unfolding run_node
  step_max understand_request run = (understood-Kept a state after run).1
  step_max get_reservation run = (reserved-Kept a state after run).1
  step_max load_context run = (loaded-Kept a state after run).1
  step_max refresh_context run = refreshed_max run
  step_max evaluate_options run = (evaluated-Kept a state after run).1
  step_max ask_confirmation run = (asked-Kept a state after run).1
  step_max validate_change run = (validated-Kept a state after run).1
  step_max explain_invalid_change run = explained_max run
  step_max execute_rebooking run = (executed-Kept a state after run).1
  step_max verify_rebooking run = (verified-Kept a state after run).1
  step_max finalize_failed run = (failed-Kept a state after 0 run).1
  step_max finalize_declined run = (declined-Kept a state after 0 run).1
  step_max finished run = ground arith

max_everywhere :
    {node last : Node} {state after : State}
    → Reaches node state last after
    → after.max_retries ≡ state.max_retries
max_everywhere here = refl
max_everywhere (onward earlier (step {node} {next} {state} {after} a run edge)) =
    step_max a state after node run ∙ max_everywhere earlier

-- In a new conversation the alternatives are refreshed at most `max_retries` times, however often an invalid
-- selection is confirmed.
pub refreshes-le-max_retries :
    (input : String) (max_retries : ℕ) {last : Node} {after : State}
    (r : Reaches understand_request (initial input max_retries) last after)
    → refreshes r ≤ max_retries
unfolding Tally initial
refreshes-le-max_retries input max_retries {last} {after} r =
    subst (λ m. refreshes r ≤ m) (max_everywhere r)
      (Tally-bound last after (refreshes r) (Tally-everywhere r (refl, omega arith)))
