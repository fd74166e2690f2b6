-- ===== src/Service/Report.antt =====
-- The outcome of an execution: `record_execution_outcome`, `dispatch_operation` and
-- `get_execution_result` of src/n8n_operator/core/service.py, with `ExecutionResultRepository`.
use n8n_operator.Service.Store.Operations.{no_updates}
use n8n_operator.Service.Registry.{entry_for_operation}
use n8n_operator.Service.Access.{get_owned_operation_row}
use n8n_operator.Service.Transition.{apply_and_audit, get_operation_row}
use n8n_operator.Service.Outcome.{
  pure, invalid_state_transition, result_not_available, or_raise, raise_if, gets, integrity_error,
  err, ok, Session, Result,
}
use n8n_operator.Service.Ports.{DispatchOutcome, DispatchPort}
use n8n_operator.StateMachine.{executing, state_eq, t15, t14, t13, TransitionId}
use n8n_operator.Base.{
  not, false, [], ◌∷◌, ◌++◌, codes, ◌&&◌, any, none, if◌then◌else◌, suc, text_eq, List, some, Bool,
  first, ℕ, Option, Text,
}
use n8n_operator.Json.{bool, end, field, num, obj, null, Json}
use n8n_operator.Service.Store.Rows.{
  Operation, Output, Context, ExecutionResult, Db, WorkflowEntry, OutcomeKind, success, error,
  indeterminate,
}
use n8n_operator.Redaction.{redact, scrub_secrets, cap_output}
use n8n_operator.Service.Outcome.{◌>>=◌, ◌>>◌}

-- `value or {}` of an object or a number.
abbrev pub or_empty_object : Json → Json
or_empty_object (num n) = if text_eq n (codes "0") then obj end else num n
or_empty_object value = value

-- `ExecutionResultRepository.create`; the operation's id is the primary key.
unfoldable pub create_result : ExecutionResult → Session Db (Unit {0})
create_result new db =
    if any (λ r. text_eq r.operation_id new.operation_id) db.results
    then err integrity_error none
    else ok tt (record db {
      results =
          db.results ++ record new { redacted_payload = or_empty_object new.redacted_payload } ∷ [];
    })

-- `ExecutionResultRepository.get`
unfoldable pub get_result : Text → Db → Option ExecutionResult
get_result operation_id db = first (λ r. text_eq r.operation_id operation_id) db.results

-- What the caller of `record_execution_outcome` reports.
pub record Outcome : Type 0 where
  pub kind : OutcomeKind
  pub started_at : Option ℕ
  pub finished_at : Option ℕ
  pub n8n_execution_id : Option Text
  pub result : Option Json
  pub error : Option Json
  pub node_trace : Option Json

-- `result if result is not None else (error or {})`
abbrev pub raw_payload : Option Json → Option Json → Json
raw_payload (some result) e = result
raw_payload none (some e) = or_empty_object e
raw_payload none none = obj end

-- Redacted, scrubbed and capped.
unfoldable pub shaped : (Text → Json → Json) → List Text → Output → Json → Json × Bool
shaped update known_secrets output payload =
    cap_output (scrub_secrets (redact update payload output.redact) known_secrets) output.max_bytes

abbrev pub kept_if {ℓ} : {A : Type ℓ} → Option A → Json → Json → Json
kept_if none capped otherwise = otherwise
kept_if (some a) capped otherwise = capped

abbrev pub kept_error : Option Json → Json → Option Json
kept_error none capped = none
kept_error (some e) capped = some capped

abbrev pub outcome_transition : OutcomeKind → TransitionId
outcome_transition success = t13
outcome_transition error = t14
outcome_transition indeterminate = t15

abbrev pub result_row : Text → Outcome → Json → ExecutionResult
result_row operation_id o capped = record {
  operation_id = operation_id;
  n8n_execution_id = o.n8n_execution_id;
  status = o.kind;
  started_at = o.started_at;
  finished_at = o.finished_at;
  redacted_payload = kept_if o.result capped (obj end);
  node_trace = o.node_trace;
  error = kept_error o.error capped;
}

-- `row.n8n_execution_id` is null until an outcome is recorded, so that an id that is not known leaves it
-- as it is.
unfoldable pub record_execution_outcome :
    Context → (Text → Json → Json) → List Text → Text → Outcome → Session Db Operation
unfolding shaped create_result
record_execution_outcome ctx update known_secrets operation_id o = do
  row ← get_operation_row ctx operation_id
  raise_if (not (state_eq row.state executing)) invalid_state_transition
  entry ← entry_for_operation row.snapshot_id row.workflow_id
  (capped, truncated) ←
      pure (shaped update known_secrets entry.output (raw_payload o.result o.error))
  create_result (result_row operation_id o capped)
  apply_and_audit ctx row (outcome_transition o.kind) (codes "system")
      (obj (field (codes "truncated") (bool truncated) end))
      (record no_updates { n8n_execution_id = o.n8n_execution_id })

-- What the first session of `dispatch_operation` reads.
pub record Dispatched : Type 0 where
  pub entry : WorkflowEntry
  pub arguments : Json
  pub timeout_seconds : ℕ
  pub started_at : ℕ

-- `entry.limits.timeout_seconds or 60`
abbrev pub timeout_or_60 : Option ℕ → ℕ
timeout_or_60 (some (suc n)) = suc n
timeout_or_60 _ = 60

unfoldable pub read_dispatched : Context → Text → Text → Session Db Dispatched
read_dispatched ctx operation_id principal = do
  row ← get_owned_operation_row ctx false operation_id principal (codes "get_operation")
  raise_if (not (state_eq row.state executing)) invalid_state_transition
  entry ← entry_for_operation row.snapshot_id row.workflow_id
  pure (record {
    entry = entry;
    arguments = row.arguments;
    timeout_seconds = timeout_or_60 entry.limits.timeout_seconds;
    started_at = row.updated_at;
  })

-- A trace is fetched for a trustworthy execution id, if the workflow opts in.
abbrev pub node_trace_of : DispatchPort → WorkflowEntry → DispatchOutcome → Option Json
node_trace_of port entry o = elim o.execution_id [
  | none ↦ none
  | some id ↦
      if o.correlation_available && entry.output.include_node_trace
      then port.fetch_node_trace id
      else none
]

-- `outcome.result if isinstance(outcome.result, dict) else {"value": outcome.result}`
abbrev pub as_object : Json → Json
as_object (obj fs) = obj fs
as_object value = obj (field (codes "value") value end)

-- `None`, or the number of the HTTP status
abbrev pub status_json : Option Text → Json
status_json none = null
status_json (some n) = num n

abbrev pub unknown_error : Option Text → Option Json
unknown_error none = none
unknown_error (some n) = some (obj (field (codes "http_status") (num n) end))

abbrev pub base_outcome : ℕ → ℕ → Option Json → DispatchOutcome → Outcome
base_outcome started_at now trace o = record {
  kind = o.kind;
  started_at = some started_at;
  finished_at = some now;
  n8n_execution_id = o.execution_id;
  result = none;
  error = none;
  node_trace = trace;
}

-- What the second session records, by the kind of the answer.
unfoldable pub reported : ℕ → ℕ → Option Json → DispatchOutcome → Outcome
reported started_at now trace o = elim o.kind [
  | success ↦ record (base_outcome started_at now trace o) { result = some (as_object o.result) }
  | error ↦ record (base_outcome started_at now trace o) {
    error = some (
        obj (
          field (codes "http_status") (status_json o.http_status)
            (field (codes "body") o.result end)));
  }
  | indeterminate ↦ record (base_outcome started_at now trace o) {
    finished_at = none;
    error = unknown_error o.http_status;
  }
]

-- Two sessions with the call of n8n between them; the first one's changes are committed when the
-- second starts. `meanwhile` is what other sessions commit during the call, `later` the context of
-- the second session.
unfoldable pub committed_before : {A : Type 0} → Db → Result Db A → Result Db A
committed_before d (ok a d') = ok a d'
committed_before d (err e none) = err e (some d)
committed_before d (err e (some c)) = err e (some c)

unfoldable pub dispatch_operation :
    Context
    → Context
    → (Db → Db)
    → DispatchPort
    → (Text → Json → Json)
    → List Text
    → Text
    → Text
    → Session Db Operation
unfolding read_dispatched record_execution_outcome reported committed_before
dispatch_operation ctx later meanwhile port update known_secrets operation_id principal db =
    elim (read_dispatched ctx operation_id principal db) [
      | err e kept ↦ err e kept
      | ok read d ↦
          let o = port.dispatch read.entry read.arguments read.timeout_seconds in
          committed_before (meanwhile d) (
            record_execution_outcome later update known_secrets operation_id
              (reported read.started_at later.now (node_trace_of port read.entry o) o)
              (meanwhile d))
    ]

unfoldable pub get_execution_result : Context → Bool → Text → Text → Session Db ExecutionResult
unfolding get_result
get_execution_result ctx enable_v2 operation_id principal = do
  get_owned_operation_row ctx enable_v2 operation_id principal (codes "get_execution_result")
  found ← gets (get_result operation_id)
  or_raise found result_not_available
