-- ===== src/Service/Execute.antt =====
-- `execute_operation`, `_verify_live_before_execute` and `cancel_operation` of
-- src/n8n_operator/core/service.py.
use n8n_operator.Json.Nfc.{canonicalize_arguments}
pub mod Checks
pub mod Contract
pub mod Progress
use n8n_operator.Base.{
  ℕ, Bool, true, false, not, ◌&&◌, Option, none, some, is_some, List, [], ◌∷◌, ◌++◌, ◌==◌, leb,
  Text, codes, text_eq, opt_text_eq, if◌then◌else◌,
}
use n8n_operator.Json.{Json, obj, str, end, field}
use n8n_operator.StateMachine.{
  State, pending_approval, approved, expired, canceled, executing, t09, t10, t12,
}
use n8n_operator.Audit.Chain.{Digest}
use n8n_operator.Service.Outcome.{
  Session, OperatorError, ◌>>=◌, ◌>>◌, pure, raise, raise_if, gets, or_raise, argument_mismatch,
  operation_not_found, handle_already_used, approval_required, operation_expired,
  operation_canceled, handle_invalid, definition_drift, concurrency_limit_reached,
  invalid_state_transition, instance_unreachable, workflow_missing_on_instance, workflow_inactive,
}
use n8n_operator.Service.Store.Rows.{Operation, WorkflowEntry, Db, Context}
use n8n_operator.Service.Store.Operations.{burn_handle, count_in_state, no_updates}
use n8n_operator.Service.Transition.{apply_and_audit}
use n8n_operator.Service.Registry.{require_active_snapshot, find_entry}
use n8n_operator.Service.Access.{get_owned_operation_row}
use n8n_operator.Service.Ports.{PreflightCheck, PreflightResult, PreflightPort, check_named}

-- `fingerprint_arguments(canonicalize_arguments(arguments))` of
-- src/n8n_operator/core/idempotency.py
unfoldable pub fingerprint_arguments : Digest → Text → Text
fingerprint_arguments digest canonical_bytes = codes "sha256:" ++ digest.sha256 canonical_bytes

abbrev has_failed : Option PreflightCheck → Bool
has_failed none = false
has_failed (some c) = text_eq c.status (codes "fail")

-- The error that the first failed check in order of severity stands for.
unfoldable pub preflight_error : PreflightResult → OperatorError
preflight_error result =
    if has_failed (check_named (codes "instance_reachable") result.checks)
    then instance_unreachable
    else if has_failed (check_named (codes "workflow_exists") result.checks)
    then workflow_missing_on_instance
    else if has_failed (check_named (codes "workflow_active") result.checks)
    then workflow_inactive
    else if has_failed (check_named (codes "definition_unchanged") result.checks)
    then definition_drift
    else instance_unreachable

-- `_verify_live_before_execute`
unfoldable pub verify_live_before_execute : PreflightPort → WorkflowEntry → Session Db (Unit {0})
verify_live_before_execute preflight entry =
    let result = preflight entry in raise_if (not result.ready) (preflight_error result)

-- Step 5: only an approved operation goes on.
unfoldable pub require_approved : State → Session Db (Unit {0})
require_approved pending_approval = raise approval_required
require_approved expired = raise operation_expired
require_approved canceled = raise operation_canceled
require_approved approved = pure tt
require_approved _ = raise handle_invalid

-- Steps 4 to 7: the row's handle, state, fingerprint, and the definition now registered.
unfoldable pub check_executable : Context → Operation → Session Db WorkflowEntry
check_executable ctx row = do
  raise_if (is_some row.handle_burned_at) handle_already_used
  require_approved row.state
  raise_if
      (not (
        text_eq
          (fingerprint_arguments ctx.digest (canonicalize_arguments ctx.digest.nfc row.arguments))
          row.argument_fingerprint))
      argument_mismatch
  snapshot ← require_active_snapshot
  entry ← or_raise (find_entry snapshot.workflows row.workflow_id) definition_drift
  raise_if (not (text_eq entry.definition_hash row.definition_hash)) definition_drift
  pure entry

-- Step 11: burn the handle, then count what runs, then move.
unfoldable pub start_execution :
    Context → Text → Text → Operation → WorkflowEntry → Session Db Operation
start_execution ctx principal operation_id row entry = do
  burned ← burn_handle ctx operation_id
  raise_if (not burned) handle_already_used
  concurrent ← gets (count_in_state row.workflow_id executing)
  raise_if (leb entry.limits.max_concurrent concurrent) concurrency_limit_reached
  apply_and_audit ctx row t10 principal (obj end) no_updates

unfoldable pub execute_operation :
    Context → PreflightPort → Bool → Text → Text → Text → Text → Session Db Operation
unfolding check_executable start_execution
execute_operation ctx preflight enable_v2 environment operation_id handle principal = do
  raise_if (not (text_eq handle operation_id)) argument_mismatch
  row ← get_owned_operation_row ctx enable_v2 operation_id principal (codes "execute_operation")
  raise_if (not enable_v2 && not (text_eq row.environment environment)) operation_not_found
  entry ← check_executable ctx row
  verify_live_before_execute preflight entry
  start_execution ctx principal operation_id row entry

-- `{"reason": reason} if reason else {}`
abbrev pub reason_detail : Option Text → Json
reason_detail none = obj end
reason_detail (some []) = obj end
reason_detail (some (c ∷ cs)) = obj (field (codes "reason") (str (c ∷ cs)) end)

unfoldable pub cancel_row : Context → Text → Option Text → Operation → Session Db Operation
cancel_row ctx principal reason row = elim row.state [
  | pending_approval ↦ apply_and_audit ctx row t09 principal (reason_detail reason) no_updates
  | approved ↦ apply_and_audit ctx row t12 principal (reason_detail reason) no_updates
  | _ ↦ raise invalid_state_transition
]

unfoldable pub cancel_operation : Context → Bool → Text → Text → Option Text → Session Db Operation
unfolding cancel_row
cancel_operation ctx enable_v2 operation_id principal reason = do
  row ← get_owned_operation_row ctx enable_v2 operation_id principal (codes "cancel_operation")
  cancel_row ctx principal reason row
