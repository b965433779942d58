-- ===== src/Agent/Graph/Knowledge.antt =====
-- What is known at each node of the graph (langgraph-python/app/agent/graph.py), up to the check of the selection.
use agents_at_scale.Prelude.{
  ◌≡◌, ◌∙◌, subst, Bool-cases, Option-cases, inl, inr, refl, true, arith, Option, none, some,
}
use agents_at_scale.Airline.Errors.{Result, ok, err, or_raise, value_error, >>=-eq-ok}
use agents_at_scale.Airline.Schemas.{Selection, Validation, RebookingResult}
use agents_at_scale.Agent.State.{
  Confirmation, ValidationResult, FinalStatus, FinalResult, Route, State,
}
use agents_at_scale.Agent.Nodes.{
  Answers, was_offered, expected_segment, check_confirmation, check_selection,
}
use agents_at_scale.Agent.Nodes
use agents_at_scale.Agent.Graph.{
  Node, explain_invalid_change, execute_rebooking, verify_rebooking, finalize_failed,
  finalize_declined, finished, validation_target,
}

-- The rules and prices were checked for a selection that the user has confirmed and that was offered.
pub record IsApproved (state : State) : Type 0 where
  pub confirmation : Confirmation
  pub result : ValidationResult
  pub sel : Selection
  pub checked : Validation
  pub confirmation_found : state.confirmation ≡ some confirmation
  pub result_found : state.validation ≡ some result
  pub confirmed : confirmation.confirmed ≡ true
  pub chosen : confirmation.selection ≡ some sel
  pub offered : was_offered confirmation.evaluation.options sel ≡ true
  pub valid : result.valid ≡ true
  pub selected : result.selection ≡ some sel
  pub passed : result.validation ≡ some checked

-- What is known at a node
unfoldable pub Known : Node → State → Type 0
Known execute_rebooking state = IsApproved state
Known verify_rebooking state =
    IsApproved state × ((execution : RebookingResult) × (state.execution ≡ some execution))
Known finalize_failed state =
    (result : FinalResult) × (state.final ≡ some result) × (result.status ≡ FinalStatus.failed)
Known finished state = (result : FinalResult) × (state.final ≡ some result)
Known _ state = Unit

module _ (a : Answers) (state after : State) where
  selection_passed :
      (c : Confirmation) (sel : Selection)
      → check_selection a state c sel ≡ ok after
      → after.route ≡ some Route.valid
      → (was_offered c.evaluation.options sel ≡ true)
        × (after.confirmation ≡ state.confirmation)
        × ((checked : Validation) × (a.validated sel ≡ ok (some checked))
            × (after.validation
                ≡ some (record (Nodes.verdict c "") { valid = true; validation = some checked })))
  unfolding check_selection
  selection_passed c sel run valid = go (a.validated sel) refl
    where
      go :
          (r : Result (Option Validation))
          → a.validated sel ≡ r
          → (was_offered c.evaluation.options sel ≡ true)
            × (after.confirmation ≡ state.confirmation)
            × ((checked : Validation) × (a.validated sel ≡ ok (some checked))
                × (after.validation
                    ≡ some
                        (record (Nodes.verdict c "") { valid = true; validation = some checked })))
      go (ok (some checked)) e = (ground arith, ground arith, (checked, e, ground arith))
      go (ok none) e = absurd (ground arith)
      go (err error) e = absurd (ground arith)

  pub confirmation_passed :
      (c : Confirmation)
      → state.confirmation ≡ some c
      → check_confirmation a state c ≡ ok after
      → after.route ≡ some Route.valid
      → (p : IsApproved after) × (a.validated p.sel ≡ ok (some p.checked))
  unfolding check_confirmation
  confirmation_passed c found run valid = elim (Bool-cases c.confirmed) [
    | inr declined ↦ absurd (ground arith)
    | inl given ↦ elim (Option-cases c.selection) [
      | inl missing ↦ absurd (ground arith)
      | inr (sel, e) ↦
          let (offered, kept, (checked, answer, result)) =
            selection_passed c sel (ground arith) valid in
          (
            record {
              confirmation = c;
              result = record (Nodes.verdict c "") { valid = true; validation = some checked };
              sel = sel;
              checked = checked;
              confirmation_found = kept ∙ found;
              result_found = result;
              confirmed = given;
              chosen = e;
              offered = offered;
              valid = refl;
              selected = e;
              passed = refl;
            },
            answer,
          )
    ]
  ]

  -- The step to the execution has the domain's answer for the selection.
  pub validation_answered :
      Nodes.validate_change a state ≡ ok after
      → validation_target after.route ≡ some execute_rebooking
      → (p : IsApproved after) × (a.validated p.sel ≡ ok (some p.checked))
  unfolding Nodes.validate_change validation_target
  validation_answered run edge =
      let (c, e, passed) =
        >>=-eq-ok (or_raise state.confirmation (value_error "validation requires confirmation"))
          (check_confirmation a state) run in
      confirmation_passed c (ground arith) passed (ground arith)

  -- The node that an edge leads to
  pub Known-at :
      {node next : Node}
      → ◌≡◌ {A = Option Node} (some node) (some next)
      → Known node after
      → Known next after
  Known-at {node = node} {next} edge known =
      let same : node ≡ next = cc edge in subst (λ n. Known n after) same known

  pub validation-Known :
      {next : Node}
      → Nodes.validate_change a state ≡ ok after
      → validation_target after.route ≡ some next
      → Known next after
  unfolding Nodes.validate_change Known validation_target
  validation-Known {next} run edge =
      let (c, e, passed) =
        >>=-eq-ok (or_raise state.confirmation (value_error "validation requires confirmation"))
          (check_confirmation a state) run in
      go c passed (ground arith) after.route refl
    where
      go :
          (c : Confirmation)
          → check_confirmation a state c ≡ ok after
          → state.confirmation ≡ some c
          → (route : Option Route) → after.route ≡ route
          → Known next after
      go c passed found none e =
          Known-at {node = explain_invalid_change}
            (subst (λ o. validation_target o ≡ some next) e edge) tt
      go c passed found (some Route.valid) e =
          Known-at {node = execute_rebooking} (subst (λ o. validation_target o ≡ some next) e edge)
            (confirmation_passed c found passed e).0
      go c passed found (some Route.invalid) e =
          Known-at {node = explain_invalid_change}
            (subst (λ o. validation_target o ≡ some next) e edge) tt
      go c passed found (some Route.declined) e =
          Known-at {node = finalize_declined} (subst (λ o. validation_target o ≡ some next) e edge)
            tt
      go c passed found (some Route.retry) e = absurd (ground arith)
      go c passed found (some Route.completed) e = absurd (ground arith)
      go c passed found (some Route.failed) e = absurd (ground arith)
