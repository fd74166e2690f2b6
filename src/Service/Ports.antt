-- ===== src/Service/Ports.antt =====
-- What a use case calls outside the database: the preflight port of
-- src/n8n_operator/core/service.py.
use n8n_operator.Base.{ℕ, Bool, Option, none, some, List, [], ◌∷◌, Text, text_eq, if◌then◌else◌}
use n8n_operator.Json.{Json}
use n8n_operator.Service.Store.Rows.{WorkflowEntry, OutcomeKind}

-- A check's name, status and code are texts.
pub record PreflightCheck : Type 0 where
  pub check : Text
  pub status : Text
  pub code : Option Text
  pub detail : Option Json

pub record PreflightResult : Type 0 where
  pub ready : Bool
  pub checks : List PreflightCheck

abbrev pub PreflightPort : Type 0
PreflightPort = WorkflowEntry → PreflightResult

-- An event for the notification sink.
pub record NotificationEvent : Type 0 where
  pub event_type : Text
  pub subject_type : Text
  pub subject_id : Text
  pub principal_id : Option Text
  pub occurred_at : ℕ
  pub fetch_reference : Text

-- What delivering an event says of it; `none` is an exception.
abbrev pub NotificationSink : Type 0
NotificationSink = NotificationEvent → Option Bool

-- One error of `jsonschema`: the keyword that failed, the path as printed segments, the message.
pub record SchemaError : Type 0 where
  pub validator : Text
  pub absolute_path : List Text
  pub message : Text

-- `Draft202012Validator(schema).iter_errors(instance)` of `jsonschema`, and Python's `repr` and
-- `str.upper`.
pub record JsonSchema : Type 0 where
  pub iter_errors : Json → Json → List SchemaError
  pub repr : Text → Text
  pub upper : Text → Text

-- What one dispatch to n8n came back with.
pub record DispatchOutcome : Type 0 where
  pub kind : OutcomeKind
  pub http_status : Option Text
  pub result : Json
  pub execution_id : Option Text
  pub correlation_available : Bool

-- `DispatchPort`: the entry, the arguments and the timeout in seconds; the trace of an execution.
pub record DispatchPort : Type 0 where
  pub dispatch : WorkflowEntry → Json → ℕ → DispatchOutcome
  pub fetch_node_trace : Text → Option Json

pub record ExecutionLookup : Type 0 where
  pub n8n_workflow_id : Text
  pub status : Text

-- `ReconciliationPort`: the lookup of one execution by its id; `none` is an `OperatorError`.
abbrev pub ReconciliationPort : Type 0
ReconciliationPort = Text → Option ExecutionLookup

-- `{c.check: c for c in checks}.get(name)`: the last check of a name counts.
unfoldable pub check_named : Text → List PreflightCheck → Option PreflightCheck
check_named name [] = none
check_named name (c ∷ cs) = elim (check_named name cs) [
  | some later ↦ some later
  | none ↦ if text_eq c.check name then some c else none
]
