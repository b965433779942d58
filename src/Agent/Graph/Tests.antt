-- ===== src/Agent/Graph/Tests.antt =====
-- A conversation on one offered flight that ends well.
use agents_at_scale.Prelude.{ℕ, ◌≡◌, ◌≤◌, refl, true, none, some, [], ◌∷◌}
use agents_at_scale.Prelude.Eq.{nat_eq, string_eq}
use agents_at_scale.Prelude.Int.{pos}
use agents_at_scale.Jobs.Json.{is_blank}
use agents_at_scale.Airline.Errors.{ok}
use agents_at_scale.Airline.Models.{
  Customer, Passenger, ReservationStatus, Reservation, FlightStatus, Flight, FareClass,
  SegmentStatus, ReservationSegment,
}
use agents_at_scale.Airline.Schemas.{
  ReservationDetails, RebookingOption, Selection, Validation, RebookingResult,
}
use agents_at_scale.Agent.State.{Request, FinalResult, State}
use agents_at_scale.Agent.Nodes.{
  Answers, check_confirmation, check_selection, expected_segment, was_offered, is_selected,
  selected_segment, only_segment, require_window, is_offered, all_known,
}
use agents_at_scale.Agent.Nodes
use agents_at_scale.Agent.Graph.{
  understand_request, execute_rebooking, finished, validation_target, execution_target, run_node,
  target, step, Reaches, here, onward, initial,
}
use agents_at_scale.Agent.Graph.Safety.{Answered, Reaches-IsApproved, Reaches-final}
use agents_at_scale.Agent.Graph.Knowledge.{IsApproved}
use agents_at_scale.Agent.Graph.Retries.{refreshes, refreshes-le-max_retries}

abbrev customer : Customer
customer = record {
  id = 1;
  first_name = "Alice";
  last_name = "Gomez";
  email = "alice@example.test";
  phone = none;
  created_at = 0;
  updated_at = 0;
}

abbrev passenger : Passenger
passenger = record {
  id = 1;
  first_name = "Alice";
  last_name = "Gomez";
  document_number = "DOC-ALICE-1";
  created_at = 0;
}

abbrev booking : Reservation
booking = record {
  id = 1;
  booking_reference = "ABC123";
  customer_id = 1;
  status = ReservationStatus.confirmed;
  total_amount = pos 30000;
  currency = "USD";
  created_at = 0;
  updated_at = 0;
}

abbrev as_flight : ℕ → Flight
as_flight id = record {
  id = id;
  flight_number = "AS100";
  origin_airport = "JFK";
  destination_airport = "LAX";
  departure_at = 200;
  arrival_at = 204;
  status = FlightStatus.scheduled;
  capacity = pos 180;
  created_at = 0;
  updated_at = 0;
}

abbrev eco : FareClass
eco = record {
  id = 1;
  code = "ECO";
  name = "Economy";
  change_allowed = true;
  cancellation_allowed = true;
  change_fee = pos 0;
  cancellation_fee = pos 0;
  created_at = 0;
}

abbrev leg : ReservationSegment
leg = record {
  id = 1;
  reservation_id = 1;
  flight_id = 1;
  fare_class_id = 1;
  status = SegmentStatus.confirmed;
  price_paid = pos 30000;
  currency = "USD";
  created_at = 0;
  updated_at = 0;
}

abbrev details : ReservationDetails
details = record {
  reservation = booking;
  customer = customer;
  passengers = passenger ∷ [];
  segments = record { segment = leg; flight = as_flight 1; fare_class = eco } ∷ [];
}

abbrev pub offer : RebookingOption
offer = record {
  flight = as_flight 2;
  fare_class = eco;
  flight_fare = record {
    id = 2;
    flight_id = 2;
    fare_class_id = 1;
    price = pos 30000;
    currency = "USD";
    available_seats = pos 9;
  };
  fare_difference = pos 0;
  change_fee = pos 0;
}

abbrev choice : Selection
choice = record {
  segment_id = 1;
  new_flight_id = 2;
  new_fare_class_id = 1;
  travel_credit_id = none;
  travel_credit_amount = pos 0;
}

abbrev pub request : Request
request = record {
  booking_reference = "ABC123";
  segment_id = none;
  departure_from = some 100;
  departure_to = some 300;
}

abbrev checked : Validation
checked = record {
  selection = choice;
  reservation_id = 1;
  customer_id = 1;
  old_flight_id = 1;
  old_fare_class_id = 1;
  new_flight_id = 2;
  new_fare_class_id = 1;
  new_price = pos 30000;
  fare_difference = pos 0;
  change_fee = pos 0;
  amount_due = pos 0;
  travel_credit_used = pos 0;
  currency = "USD";
  passenger_count = pos 1;
}

abbrev changed : RebookingResult
changed = record { change = none; segment = leg; booking_reference = "ABC123" }

abbrev pub answers : Answers
answers = record {
  understood = λ text. ok request;
  reservation = λ reference. ok details;
  found = λ input. ok (offer ∷ []);
  credits = λ id currency. ok [];
  evaluated = λ r options credits. ok (record {
    request = r;
    options = options;
    credits = credits;
    ranked_option_ids = 2 ∷ [];
    summary = "";
    has_matching_option = true;
  });
  answer = some (true, some choice);
  validated = λ sel. ok (some checked);
  executed = λ sel. ok changed;
  verified = λ sel. ok changed;
}

to_execution :
    (state : State) × Reaches understand_request (initial "move me" 2) execute_rebooking state
unfolding run_node target validation_target Nodes.understand_request Nodes.get_reservation
    Nodes.load_context Nodes.evaluate_options Nodes.ask_confirmation Nodes.validate_change is_blank
    selected_segment only_segment require_window is_offered all_known check_confirmation
    check_selection expected_segment was_offered is_selected initial
to_execution = (
  _,
  onward
      (onward
        (onward
          (onward (onward (onward here (step answers refl refl)) (step answers refl refl))
            (step answers refl refl))
          (step answers refl refl))
        (step answers refl refl))
      (step answers refl refl),
)

to_end : (state : State) × Reaches understand_request (initial "move me" 2) finished state
unfolding to_execution run_node target validation_target execution_target Nodes.understand_request
    Nodes.get_reservation Nodes.load_context Nodes.evaluate_options Nodes.ask_confirmation
    Nodes.validate_change Nodes.execute_rebooking Nodes.verify_rebooking is_blank selected_segment
    only_segment require_window is_offered all_known check_confirmation check_selection
    expected_segment was_offered is_selected initial
to_end = (_, onward (onward to_execution.1 (step answers refl refl)) (step answers refl refl))

Reaches-IsApproved_example :
    (p : IsApproved to_execution.0) × Answered to_execution.1 p.sel p.checked
Reaches-IsApproved_example = Reaches-IsApproved "move me" 2 to_execution.1

Reaches-final_example : (result : FinalResult) × (to_end.0.final ≡ some result)
Reaches-final_example = Reaches-final "move me" 2 to_end.1

refreshes-le-max_retries_example : refreshes to_end.1 ≤ 2
refreshes-le-max_retries_example = refreshes-le-max_retries "move me" 2 to_end.1
