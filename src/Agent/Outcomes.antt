-- ===== src/Agent/Outcomes.antt =====
-- The nodes that explain and finish (langgraph-python/app/agent/nodes/explanation.py), and the states that a domain
-- call leads to.
use Prim.Native.String.{◌++◌}
use agents_at_scale.Prelude.{String, ◌+◌, Option, none, some, ltb, if◌then◌else◌}
use agents_at_scale.Prelude.Eq.{nat_eq, string_eq}
use agents_at_scale.Airline.Errors.{Result, ok, err, ◌>>=◌, or_raise, value_error, message}
use agents_at_scale.Airline.Schemas.{Selection, RebookingResult}
use agents_at_scale.Agent.State.{ValidationResult, FinalStatus, FinalResult, Route, State}

abbrev pub outcome : FinalStatus → String → ValidationResult → FinalResult
outcome status text result = record {
  status = status;
  message = text;
  selection = result.selection;
  validation = none;
  execution = none;
  verification = none;
}

abbrev pub explained : State → ValidationResult → State
explained state result =
    let retry_count = state.retry_count + 1 in
    if result.user_declined
    then record state {
      final = some (outcome FinalStatus.declined "The rebooking was not confirmed." result);
      route = some Route.declined;
    }
    else if ltb state.max_retries retry_count
    then record state {
      final = some (
          outcome FinalStatus.failed
            ("The selected rebooking is no longer valid: " ++ result.reason) result);
      retry_count = retry_count;
      route = some Route.invalid;
    }
    else record state {
      error = some result.reason;
      retry_count = retry_count;
      route = some Route.retry;
    }

unfoldable pub explain_invalid_change : State → Result State
explain_invalid_change state = do
  result ← or_raise state.validation (value_error "invalid explanation requires validation")
  ok (explained state result)

abbrev pub executed_as : State → ValidationResult → Result RebookingResult → State
executed_as state result (ok execution) = record state {
  execution = some execution;
  route = some Route.completed;
}
executed_as state result (err error) = record state {
  final = some (record (outcome FinalStatus.failed "The rebooking could not be executed." result) {
    validation = result.validation;
  });
  error = some (message error);
  route = some Route.failed;
}

abbrev pub verified_as : State → ValidationResult → RebookingResult → Result RebookingResult → State
verified_as state result execution (ok verification) = record state {
  verification = some verification;
  final =
      some
        (record (outcome FinalStatus.completed "The rebooking was completed successfully." result) {
          validation = result.validation;
          execution = some execution;
          verification = some verification;
        });
  route = some Route.completed;
}
verified_as state result execution (err error) = record state {
  final = some (record (outcome FinalStatus.failed "The rebooking could not be verified." result) {
    validation = result.validation;
    execution = some execution;
  });
  error = some (message error);
  route = some Route.failed;
}

abbrev pub selection_of : Option ValidationResult → Option Selection
selection_of none = none
selection_of (some result) = result.selection

-- `_finalize_declined`
unfoldable pub finalize_declined : State → Result State
finalize_declined state = ok (record state {
  final = some (record {
    status = FinalStatus.declined;
    message = "The rebooking was not confirmed.";
    selection = selection_of state.validation;
    validation = none;
    execution = none;
    verification = none;
  });
  route = some Route.declined;
})

-- `_finalize_failed`
unfoldable pub finalize_failed : State → Result State
finalize_failed state = ok (record state { route = some Route.failed })
