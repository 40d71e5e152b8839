-- ===== src/Runtime/Execution/Outcome.antt =====
-- rust/catseq-runtime/src/execution.rs: the evidence of a run and the success and failure reports.
-- Text of messages and the empty `details` are left out.
use catseq.Prelude.{
  ℕ, Bool, true, false, ◌==◌, ◌||◌, not, if◌then◌else◌, List, [], ◌∷◌, Option, none, some, Result,
  ◌>>◌, fail_if,
}
use catseq.Prelude.Map.{lookup, any_value}
use catseq.Runtime.Address.{OasmAddress, address_keys}

pub data BoardExecutionState : Type 0 where
  not_dispatched loader_submitted launch_submitted succeeded device_failed : BoardExecutionState

-- The derived order compares by the place in the declaration.
abbrev pub rank : BoardExecutionState → ℕ
rank not_dispatched = 0
rank loader_submitted = 1
rank launch_submitted = 2
rank succeeded = 3
rank device_failed = 4

unfoldable pub is_terminal : BoardExecutionState → Bool
is_terminal succeeded = true
is_terminal device_failed = true
is_terminal _ = false

pub data ExecutionCertainty : Type 0 where
  not_started fully_observed indeterminate : ExecutionCertainty

abbrev pub certainty_key : ExecutionCertainty → ℕ
certainty_key not_started = 0
certainty_key fully_observed = 1
certainty_key indeterminate = 2

pub data RuntimeFailureCode : Type 0 where
  program_invalid topology_invalid transport_open_failed transport_send_failed : RuntimeFailureCode
  transport_receive_failed completion_timeout device_exception : RuntimeFailureCode
  protocol_violation : RuntimeFailureCode

pub record DeviceExceptionReport : Type 0 where
  pub exception_flags : ℕ
  pub instruction_address : Option ℕ

abbrev pub Evidence : Type 0
Evidence = List (OasmAddress × BoardExecutionState)

abbrev pub Exceptions : Type 0
Exceptions = List (OasmAddress × DeviceExceptionReport)

pub record RuntimeFailure : Type 0 where
  pub schema_version : ℕ
  pub code : RuntimeFailureCode
  pub execution_certainty : ExecutionCertainty
  pub board_evidence : Evidence
  pub device_exceptions : Exceptions

pub record RuntimeSuccess : Type 0 where
  pub schema_version : ℕ
  pub board_evidence : Evidence
  pub results : List (OasmAddress × List ℕ)

-- The `matches!` of the first test of `derive_certainty`.
abbrev pub was_launched : BoardExecutionState → Bool
was_launched launch_submitted = true
was_launched succeeded = true
was_launched device_failed = true
was_launched _ = false

abbrev pub is_launch_submitted : BoardExecutionState → Bool
is_launch_submitted s = rank s == 2

abbrev pub is_succeeded : BoardExecutionState → Bool
is_succeeded s = rank s == 3

abbrev pub is_device_failed : BoardExecutionState → Bool
is_device_failed s = rank s == 4

unfoldable pub derive_certainty : Evidence → ExecutionCertainty
unfolding any_value
derive_certainty evidence =
    if any_value was_launched evidence
    then if any_value is_launch_submitted evidence then indeterminate else fully_observed
    else not_started

unfoldable pub new_failure : RuntimeFailureCode → Evidence → Exceptions → RuntimeFailure
new_failure code board_evidence device_exceptions = record {
  schema_version = 1;
  code = code;
  execution_certainty = derive_certainty board_evidence;
  board_evidence = board_evidence;
  device_exceptions = device_exceptions;
}

-- The errors of the two `validate` functions.
pub data Invalid : Type 0 where
  bad_schema bad_certainty stray_exception unfinished : Invalid

abbrev pub failed_in : Evidence → OasmAddress → Bool
failed_in evidence board = is_failed (lookup board evidence)
  where
    is_failed : Option BoardExecutionState → Bool
    is_failed none = false
    is_failed (some s) = is_device_failed s

-- Whether each board with an exception has failed.
unfoldable pub exceptions_match : Evidence → Exceptions → Bool
exceptions_match evidence [] = true
exceptions_match evidence ((board, report) ∷ rest) =
    if failed_in evidence board then exceptions_match evidence rest else false

unfoldable pub validate_failure : RuntimeFailure → Result Invalid (Unit {0})
unfolding derive_certainty exceptions_match
validate_failure f = do
  fail_if (not (f.schema_version == 1)) bad_schema
  fail_if
      (not
        (certainty_key (derive_certainty f.board_evidence) == certainty_key f.execution_certainty))
      bad_certainty
  fail_if (not (exceptions_match f.board_evidence f.device_exceptions)) stray_exception

abbrev pub no_boards : Evidence → Bool
no_boards [] = true
no_boards (x ∷ xs) = false

unfoldable pub validate_success : RuntimeSuccess → Result Invalid (Unit {0})
unfolding any_value
validate_success s = do
  fail_if (not (s.schema_version == 1)) bad_schema
  fail_if
      (no_boards s.board_evidence || any_value (λ state. not (is_succeeded state)) s.board_evidence)
      unfinished
