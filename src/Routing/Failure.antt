-- ===== src/Routing/Failure.antt =====
-- internal/routing/execute.go: Go errors as far as the executor looks into them, their classification,
-- and the errors that the executor returns.
use byos.Prelude.{String, Bool, true, Option, none, some, if◌then◌else◌}
use byos.Provider.{UpstreamError, ErrorClassification, no_classification}

-- What errors.As and errors.Is find in an error.
pub record GoError : Type 0 where
  pub as_upstream : Option UpstreamError
  pub is_canceled : Bool
  pub as_network : Bool
  pub is_unknown_model : Bool
  pub text : String

pub data Failable {ℓ} (A : Type ℓ) : Type ℓ where
  ok : A → Failable A
  fail : GoError → Failable A

pub data ExecuteError : Type 0 where
  model_unavailable no_available_accounts : ExecuteError
  execution : ErrorClassification → ExecuteError
  failed : GoError → ExecuteError

pub data Outcome {ℓ} (A : Type ℓ) : Type ℓ where
  done : A → Outcome A
  error : ExecuteError → Outcome A

unfoldable pub typed_error_classification : GoError → Option ErrorClassification
typed_error_classification e = elim e.as_upstream [
  | none ↦ none
  | some upstream ↦ some upstream.classification
]

base : ErrorClassification
base = record no_classification {
  class = "upstream";
  public_status = 502;
  public_code = "provider_error";
  public_message = "upstream provider error";
}

classify_other : GoError → ErrorClassification
unfolding base
classify_other e =
    if e.is_canceled
    then record base {
      class = "cancelled";
      public_status = 499;
      public_code = "request_cancelled";
      public_message = "request cancelled";
    }
    else if e.as_network
    then record base {
      class = "connection";
      retry_next = true;
      public_status = 503;
      public_code = "provider_unavailable";
    }
    else base

unfoldable pub classify_execution_error : GoError → ErrorClassification
unfolding classify_other
classify_execution_error e = elim e.as_upstream [
  | none ↦ classify_other e
  | some upstream ↦ upstream.classification
]
