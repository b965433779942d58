-- ===== src/Agent/Nodes.antt =====
-- The nodes (langgraph-python/app/agent/nodes). A node gives the updated state or raises; the two that
-- load the options and the credits run side by side and are one step.
use agents_at_scale.Prelude.{
  ℕ, String, Bool, true, false, not, ◌&&◌, ◌||◌, Option, none, some, List, [], ◌∷◌, find, length,
  ltb, if◌then◌else◌,
}
use agents_at_scale.Prelude.Eq.{◌==◌, nat_eq, string_eq}
use agents_at_scale.Prelude.Int.{pos}
use agents_at_scale.Airline.Errors.{
  Result, ok, err, ◌>>=◌, ◌>>◌, raise_if, or_raise, value_error, is_value_error, message,
}
use agents_at_scale.Airline.Models.{TravelCredit}
use agents_at_scale.Airline.Schemas.{
  ReservationDetails, ReservationSegmentDetails, SearchInput, RebookingOption, Selection,
  Validation, RebookingResult,
}
use agents_at_scale.Jobs.Json.{is_blank}
use agents_at_scale.Agent.State.{
  Request, ReservationContext, Evaluation, Confirmation, ValidationResult, Route, State,
}
use agents_at_scale.Agent.Outcomes.{executed_as, verified_as}

-- What the agent asks of the airline (`AirlinePort`, `ChangeValidator`), and what the model and the user answer, at
-- the time of a step. The model is given its input without the space around it. An answer that is no
-- confirmation is none.
pub record Answers : Type 0 where
  pub understood : String → Result Request
  pub reservation : String → Result ReservationDetails
  pub found : SearchInput → Result (List RebookingOption)
  pub credits : ℕ → String → Result (List TravelCredit)
  pub evaluated : Request → List RebookingOption → List TravelCredit → Result Evaluation
  pub answer : Option (Bool × Option Selection)
  -- none for `False`
  pub validated : Selection → Result (Option Validation)
  pub executed : Selection → Result RebookingResult
  pub verified : Selection → Result RebookingResult

abbrev has_none {ℓ} : {A : Type ℓ} → List A → Bool
has_none [] = true
has_none (_ ∷ _) = false

unfoldable pub only_segment : List ReservationSegmentDetails → Result ReservationSegmentDetails
only_segment (details ∷ []) = ok details
only_segment _ = err (value_error "a reservation segment must be selected")

unfoldable pub selected_segment : ReservationContext → Result ReservationSegmentDetails
unfolding only_segment
selected_segment context = elim context.request.segment_id [
  | some id ↦
      or_raise (find (λ details. details.segment.id == id) context.reservation.segments)
        (value_error "requested reservation segment was not found")
  | none ↦ only_segment context.reservation.segments
]

-- `require_window`
unfoldable pub require_window : Request → Result (ℕ × ℕ)
require_window request = do
  from_time ← or_raise request.departure_from (value_error "departure window is required")
  to_time ← or_raise request.departure_to (value_error "departure window is required")
  raise_if (ltb to_time from_time) (value_error "departure window is invalid")
  ok (from_time, to_time)

-- `_refresh_context`
unfoldable pub refresh_context : State → Result State
refresh_context state = ok (record state { route = some Route.retry })

unfoldable pub is_offered : List RebookingOption → ℕ → Bool
is_offered [] id = false
is_offered (option ∷ options) id =
    option.flight.id == id || option.flight_fare.id == id || is_offered options id

unfoldable pub all_known : List RebookingOption → List ℕ → Bool
unfolding is_offered
all_known options [] = true
all_known options (id ∷ ids) = is_offered options id && all_known options ids

abbrev pub verdict : Confirmation → String → ValidationResult
verdict confirmation reason = record {
  valid = false;
  selection = confirmation.selection;
  reason = reason;
  evaluation = confirmation.evaluation;
  user_declined = false;
  validation = none;
}

abbrev routed : State → ValidationResult → Route → State
routed state result route = record state { validation = some result; route = some route }

abbrev first_segment : List ReservationSegmentDetails → Option ℕ
first_segment [] = none
first_segment (details ∷ _) = some details.segment.id

abbrev segments_of : Option ReservationContext → List ReservationSegmentDetails
segments_of none = []
segments_of (some context) = context.reservation.segments

-- The segment of the request, or else the first one of the reservation
unfoldable pub expected_segment : State → Confirmation → Option ℕ
expected_segment state confirmation = elim confirmation.evaluation.request.segment_id [
  | some id ↦ some id
  | none ↦ first_segment (segments_of state.reservation_context)
]

unfoldable pub is_selected : Selection → RebookingOption → Bool
is_selected sel option =
    option.flight.id == sel.new_flight_id && option.fare_class.id == sel.new_fare_class_id

unfoldable pub was_offered : List RebookingOption → Selection → Bool
unfolding is_selected
was_offered [] sel = false
was_offered (option ∷ options) sel = is_selected sel option || was_offered options sel

abbrev is_id : ℕ → Option ℕ → Bool
is_id id none = false
is_id id (some other) = other == id

abbrev domain_verdict : State → Confirmation → Result (Option Validation) → Result State
domain_verdict state confirmation (ok (some validation)) = ok (
    routed state (record (verdict confirmation "") { valid = true; validation = some validation })
      Route.valid)
domain_verdict state confirmation (ok none) = ok (
    routed state (verdict confirmation "the selected option failed domain validation")
      Route.invalid)
domain_verdict state confirmation (err error) =
    if is_value_error error
    then ok (routed state (verdict confirmation (message error)) Route.invalid)
    else err error

module _ (a : Answers) where
  unfoldable pub understand_request : State → Result State
  understand_request state = do
    raise_if (is_blank state.user_input) (value_error "user input is required")
    request ← a.understood state.user_input
    raise_if (request.booking_reference == "") (value_error "booking reference is required")
    ok (record state { request = some request })

  unfoldable pub get_reservation : State → Result State
  get_reservation state = do
    request ← or_raise state.request (value_error "reservation requires a request")
    reservation ← a.reservation request.booking_reference
    raise_if (has_none reservation.segments) (value_error "reservation requires a segment")
    ok (record state {
      reservation_context = some (record { request = request; reservation = reservation });
    })

  unfoldable pub load_context : State → Result State
  unfolding selected_segment require_window
  load_context state = do
    context ← or_raise state.reservation_context (value_error "reservation context is required")
    details ← selected_segment context
    window ← require_window context.request
    options ← a.found (record {
      segment_id = details.segment.id;
      departure_from = window.0;
      departure_to = window.1;
      passenger_count = pos (length context.reservation.passengers);
    })
    credits ←
        a.credits context.reservation.reservation.customer_id
          context.reservation.reservation.currency
    ok (record state { search_result = some options; credits_result = some credits })

  unfoldable pub evaluate_options : State → Result State
  unfolding all_known
  evaluate_options state = do
    request ←
        or_raise state.request
          (value_error "evaluation requires request, alternatives, and credits")
    options ←
        or_raise state.search_result
          (value_error "evaluation requires request, alternatives, and credits")
    credits ←
        or_raise state.credits_result
          (value_error "evaluation requires request, alternatives, and credits")
    result ← a.evaluated request options credits
    raise_if (not (all_known options result.ranked_option_ids))
        (value_error "evaluation returned an unknown option")
    ok (record state {
      evaluation = some (record result { request = request; options = options; credits = credits });
    })

  unfoldable pub ask_confirmation : State → Result State
  ask_confirmation state = do
    evaluation ← or_raise state.evaluation (value_error "confirmation requires an evaluation")
    answer ← or_raise a.answer (value_error "invalid confirmation payload")
    ok (record state {
      confirmation =
          some (record { confirmed = answer.0; selection = answer.1; evaluation = evaluation });
    })

  unfoldable pub check_selection : State → Confirmation → Selection → Result State
  unfolding expected_segment was_offered
  check_selection state confirmation sel =
      if not (is_id sel.segment_id (expected_segment state confirmation))
      then ok (
          routed state
            (verdict confirmation "the selected option belongs to another reservation segment")
            Route.invalid)
      else if not (was_offered confirmation.evaluation.options sel)
      then ok
          (routed state (verdict confirmation "the selected option was not offered") Route.invalid)
      else domain_verdict state confirmation (a.validated sel)

  unfoldable pub check_confirmation : State → Confirmation → Result State
  unfolding check_selection
  check_confirmation state confirmation =
      if not confirmation.confirmed
      then ok (
          routed state
            (record (verdict confirmation "the rebooking was not confirmed") {
              user_declined = true;
            })
            Route.declined)
      else or_raise confirmation.selection (value_error "confirmed selection is required")
        >>= check_selection state confirmation

  unfoldable pub validate_change : State → Result State
  unfolding check_confirmation
  validate_change state =
      or_raise state.confirmation (value_error "validation requires confirmation")
      >>= check_confirmation state

  unfoldable pub execute_rebooking : State → Result State
  execute_rebooking state = do
    result ← or_raise state.validation (value_error "execution requires a valid selection")
    raise_if (not result.valid) (value_error "execution requires a valid selection")
    sel ← or_raise result.selection (value_error "execution requires a valid selection")
    ok (executed_as state result (a.executed sel))

  unfoldable pub verify_rebooking : State → Result State
  verify_rebooking state = do
    result ← or_raise state.validation (value_error "verification requires execution state")
    sel ← or_raise result.selection (value_error "verification requires execution state")
    execution ← or_raise state.execution (value_error "verification requires execution state")
    ok (verified_as state result execution (a.verified sel))
