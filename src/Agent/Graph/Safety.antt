-- ===== src/Agent/Graph/Safety.antt =====
-- What holds wherever a conversation comes to.
use agents_at_scale.Prelude.{
  ℕ, String, ◌≡◌, ◌∙◌, ◌≢◌, ap, subst, Bool-cases, Option-cases, inl, inr, refl, ◌+◌, arith, some,
  ltb,
}
use agents_at_scale.Airline.Errors.{Result, ok, err, or_raise, value_error, >>=-eq-ok}
use agents_at_scale.Airline.Schemas.{Selection, Validation, RebookingResult}
use agents_at_scale.Agent.State.{FinalResult, State}
use agents_at_scale.Agent.Nodes.{
  Answers, was_offered, expected_segment, check_confirmation, check_selection,
}
use agents_at_scale.Agent.Nodes
use agents_at_scale.Agent.Outcomes
use agents_at_scale.Agent.Graph.{
  Node, understand_request, get_reservation, load_context, refresh_context, evaluate_options,
  ask_confirmation, validate_change, explain_invalid_change, execute_rebooking, verify_rebooking,
  finalize_failed, finalize_declined, finished, explanation_target, execution_target, run_node,
  target, step, Reaches, here, onward, initial,
}
use agents_at_scale.Agent.Graph.Knowledge.{
  Known-at, validation-Known, validation_answered, IsApproved, Known,
}

module _ (a : Answers) (state after : State) where
  explanation-Known :
      {next : Node}
      → Outcomes.explain_invalid_change state ≡ ok after
      → explanation_target after.route ≡ some next
      → Known next after
  unfolding Outcomes.explain_invalid_change Known explanation_target
  explanation-Known {next} run edge =
      let (result, e, done) =
        >>=-eq-ok
          (or_raise state.validation (value_error "invalid explanation requires validation"))
          (λ r. ok (Outcomes.explained state r)) run in
      elim (Bool-cases result.user_declined) [
        | inl declined ↦ Known-at a state after {node = finalize_declined} (ground arith) tt
        | inr asked ↦ elim (Bool-cases (ltb state.max_retries (state.retry_count + 1))) [
          | inl spent ↦
              Known-at a state after {node = finished} (ground arith)
                (elim (Option-cases after.final) [
                  | inl missing ↦ absurd (ground arith)
                  | inr p ↦ p
                ])
          | inr left ↦ Known-at a state after {node = refresh_context} (ground arith) tt
        ]
      ]

  -- A node that touches neither the answer of the user nor its verdict keeps the approval.
  kept_approval :
      IsApproved state
      → after.confirmation ≡ state.confirmation
      → after.validation ≡ state.validation
      → IsApproved after
  kept_approval p c v = record {
    confirmation = p.confirmation;
    result = p.result;
    sel = p.sel;
    checked = p.checked;
    confirmation_found = c ∙ p.confirmation_found;
    result_found = v ∙ p.result_found;
    confirmed = p.confirmed;
    chosen = p.chosen;
    offered = p.offered;
    valid = p.valid;
    selected = p.selected;
    passed = p.passed;
  }

  executed_after :
      (p : IsApproved state)
      → Nodes.execute_rebooking a state ≡ ok after
      → after ≡ Outcomes.executed_as state p.result (a.executed p.sel)
  unfolding Nodes.execute_rebooking
  executed_after p run = ground (arith, p.result_found, p.valid, p.selected, run)

  executed-Known :
      {next : Node}
      → IsApproved state
      → Nodes.execute_rebooking a state ≡ ok after
      → execution_target verify_rebooking after.route ≡ some next
      → Known next after
  unfolding Known execution_target
  executed-Known {next} p run edge = go (a.executed p.sel) (executed_after p run)
    where
      go :
          (r : Result RebookingResult)
          → after ≡ Outcomes.executed_as state p.result r
          → Known next after
      go (ok execution) e =
          Known-at a state after {node = verify_rebooking}
            (subst (λ (s : State). execution_target verify_rebooking s.route ≡ some next) e edge)
            (
              kept_approval p (ap (λ (s : State). s.confirmation) e)
                  (ap (λ (s : State). s.validation) e),
              (execution, ap (λ (s : State). s.execution) e),
            )
      go (err error) e =
          Known-at a state after {node = finalize_failed}
            (subst (λ (s : State). execution_target verify_rebooking s.route ≡ some next) e edge)
            (_, ap (λ (s : State). s.final) e, refl)

  verified_after :
      (p : IsApproved state) {execution : RebookingResult}
      → state.execution ≡ some execution
      → Nodes.verify_rebooking a state ≡ ok after
      → after ≡ Outcomes.verified_as state p.result execution (a.verified p.sel)
  unfolding Nodes.verify_rebooking
  verified_after p done run = ground (arith, p.result_found, p.selected, done, run)

  verified-Known :
      {next : Node}
      → Known verify_rebooking state
      → Nodes.verify_rebooking a state ≡ ok after
      → execution_target finished after.route ≡ some next
      → Known next after
  unfolding Known execution_target
  verified-Known {next} (p, (execution, done)) run edge =
      go (a.verified p.sel) (verified_after p done run)
    where
      go :
          (r : Result RebookingResult)
          → after ≡ Outcomes.verified_as state p.result execution r
          → Known next after
      go (ok verification) e =
          Known-at a state after {node = finished}
            (subst (λ (s : State). execution_target finished s.route ≡ some next) e edge)
            (_, ap (λ (s : State). s.final) e)
      go (err error) e =
          Known-at a state after {node = finalize_failed}
            (subst (λ (s : State). execution_target finished s.route ≡ some next) e edge)
            (_, ap (λ (s : State). s.final) e, refl)

  finalized_failed : Outcomes.finalize_failed state ≡ ok after → after.final ≡ state.final
  unfolding Outcomes.finalize_failed
  finalized_failed run = ground arith

  finalized_declined :
      Outcomes.finalize_declined state ≡ ok after
      → (result : FinalResult) × (after.final ≡ some result)
  unfolding Outcomes.finalize_declined
  finalized_declined run = elim (Option-cases after.final) [
    | inl e ↦ absurd (ground arith)
    | inr p ↦ p
  ]

  step-Known :
      (node : Node) {next : Node}
      → Known node state
      → run_node a node state ≡ ok after
      → target node after ≡ some next
      → Known next after
  unfolding run_node target Known
  step-Known understand_request known run edge =
      Known-at a state after {node = get_reservation} edge tt
  step-Known get_reservation known run edge = Known-at a state after {node = load_context} edge tt
  step-Known load_context known run edge = Known-at a state after {node = evaluate_options} edge tt
  step-Known refresh_context known run edge = Known-at a state after {node = load_context} edge tt
  step-Known evaluate_options known run edge =
      Known-at a state after {node = ask_confirmation} edge tt
  step-Known ask_confirmation known run edge =
      Known-at a state after {node = validate_change} edge tt
  step-Known validate_change known run edge = validation-Known a state after run edge
  step-Known explain_invalid_change known run edge = explanation-Known run edge
  step-Known execute_rebooking known run edge = executed-Known known run edge
  step-Known verify_rebooking known run edge = verified-Known known run edge
  step-Known finalize_failed (result, final, status) run edge =
      Known-at a state after {node = finished} edge (result, finalized_failed run ∙ final)
  step-Known finalize_declined known run edge =
      Known-at a state after {node = finished} edge (finalized_declined run)
  step-Known finished known run edge = absurd (cc)

Known-everywhere :
    {node last : Node} {state after : State}
    → Reaches node state last after
    → Known node state
    → Known last after
Known-everywhere here known = known
Known-everywhere (onward earlier (step {node} {next} {state} {after} a run edge)) known =
    step-Known a state after node (Known-everywhere earlier known) run edge

-- What the domain answered in the last step of a conversation, which was the validation.
pub Answered :
    {node last : Node} {state after : State}
    → Reaches node state last after
    → Selection
    → Validation
    → Type 0
Answered here sel checked = ⊥
Answered (onward earlier (step {node} a run edge)) sel checked =
    (node ≡ validate_change) × (a.validated sel ≡ ok (some checked))

answered_before :
    (a : Answers) (node : Node) (state : State) {after : State} {next : Node}
    → run_node a node state ≡ ok after
    → target node after ≡ some next
    → next ≡ execute_rebooking
    → (node ≡ validate_change)
      × ((p : IsApproved after) × (a.validated p.sel ≡ ok (some p.checked)))
unfolding run_node target explanation_target execution_target
answered_before a validate_change state {after} run edge last =
    (refl, validation_answered a state after run (rw last at edge))
answered_before a node state run edge last = absurd (ground (arith, edge, last))

Answered-last :
    {node last : Node} {state after : State} (path : Reaches node state last after)
    → node ≢ execute_rebooking
    → last ≡ execute_rebooking
    → (p : IsApproved after) × Answered path p.sel p.checked
unfolding Answered
Answered-last here start end = absurd (start end)
Answered-last (onward earlier (step {node} {state = between} a run edge)) start end =
    let (at, (p, answer)) = answered_before a node between run edge end in (p, (at, answer))

-- Wherever a new conversation gets to executing a rebooking, the user has confirmed the selection that it executes,
-- which is one that was offered, and the last step was to validate it: there the domain was asked about this
-- selection, without a change, and answered with the validation that the state now holds.
pub Reaches-IsApproved :
    (input : String) (max_retries : ℕ) {state : State}
    (path : Reaches understand_request (initial input max_retries) execute_rebooking state)
    → (p : IsApproved state) × Answered path p.sel p.checked
Reaches-IsApproved input max_retries path = Answered-last path (λ e. absurd (cc)) refl

-- A new conversation that comes to its end has a final result.
pub Reaches-final :
    (input : String) (max_retries : ℕ) {state : State}
    → Reaches understand_request (initial input max_retries) finished state
    → (result : FinalResult) × (state.final ≡ some result)
unfolding Known
Reaches-final input max_retries reached = Known-everywhere reached tt
