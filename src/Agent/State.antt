-- ===== src/Agent/State.antt =====
-- The contracts of the rebooking graph (langgraph-python/app/agent/state.py). A key that the state lacks is none.
use agents_at_scale.Prelude.{ℕ, String, Bool, Option, List}
use agents_at_scale.Airline.Models.{TravelCredit}
use agents_at_scale.Airline.Schemas.{
  ReservationDetails, RebookingOption, Selection, Validation, RebookingResult,
}

pub record Request : Type 0 where
  pub booking_reference : String
  pub segment_id : Option ℕ
  pub departure_from : Option ℕ
  pub departure_to : Option ℕ

pub record ReservationContext : Type 0 where
  pub request : Request
  pub reservation : ReservationDetails

pub record Evaluation : Type 0 where
  pub request : Request
  pub options : List RebookingOption
  pub credits : List TravelCredit
  pub ranked_option_ids : List ℕ
  pub summary : String
  pub has_matching_option : Bool

pub record Confirmation : Type 0 where
  pub confirmed : Bool
  pub selection : Option Selection
  pub evaluation : Evaluation

pub record ValidationResult : Type 0 where
  pub valid : Bool
  pub selection : Option Selection
  pub reason : String
  pub evaluation : Evaluation
  pub user_declined : Bool
  pub validation : Option Validation

pub data FinalStatus : Type 0 where
  completed declined failed : FinalStatus

pub record FinalResult : Type 0 where
  pub status : FinalStatus
  pub message : String
  pub selection : Option Selection
  pub validation : Option Validation
  pub execution : Option RebookingResult
  pub verification : Option RebookingResult

pub data Route : Type 0 where
  valid invalid declined retry completed failed : Route

pub record State : Type 0 where
  pub user_input : String
  pub request : Option Request
  pub reservation_context : Option ReservationContext
  pub search_result : Option (List RebookingOption)
  pub credits_result : Option (List TravelCredit)
  pub evaluation : Option Evaluation
  pub confirmation : Option Confirmation
  pub validation : Option ValidationResult
  pub execution : Option RebookingResult
  pub verification : Option RebookingResult
  pub final : Option FinalResult
  pub route : Option Route
  pub error : Option String
  pub retry_count : ℕ
  pub max_retries : ℕ
