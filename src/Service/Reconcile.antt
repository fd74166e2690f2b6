-- ===== src/Service/Reconcile.antt =====
-- `reconcile_operation` of src/n8n_operator/core/service.py.
use n8n_operator.Json.{end, str, field, obj}
use n8n_operator.Service.Store.Logs.{write_audit}
use n8n_operator.Service.Registry.{entry_for_operation}
use n8n_operator.Authorization.Roles.{reconcile_capability}
use n8n_operator.Service.Transition.{get_operation_row}
use n8n_operator.Service.Access.{authorize, organization_of}
use n8n_operator.Service.Outcome.{
  pure, or_raise, reconciliation_not_applicable, gets, operation_not_found, raise_if, Session,
}
use n8n_operator.Service.Ports.{ReconciliationPort}
use n8n_operator.Service.Store.Rows.{Db, Operation, Context}
use n8n_operator.Base.{true, false, codes, none, some, text_eq, not, ℕ, Bool, Text}
use n8n_operator.StateMachine.{unknown, state_eq}
use n8n_operator.Service.Outcome.{◌>>=◌, ◌>>◌}

pub record ReconciliationRecord : Type 0 where
  pub operation_id : Text
  pub execution_id : Text
  pub n8n_workflow_id : Text
  pub n8n_execution_status : Text
  pub note : Text
  pub actor : Text
  pub recorded_at : ℕ

-- In v2 the evaluator decides by the capability to reconcile, else the requester may.
unfoldable pub check_reconciler : Bool → Text → Operation → Session Db (Unit {0})
check_reconciler false principal row =
    raise_if (not (text_eq row.principal_id principal)) operation_not_found
check_reconciler true principal row = do
  organization ← organization_of row.environment_id
  decision ← gets (
      authorize true principal reconcile_capability (some row.workflow_id) row.environment_id
        organization none none)
  raise_if (not decision.is_allowed) operation_not_found

unfoldable pub reconcile_operation :
    Context
    → ReconciliationPort
    → Bool
    → Text
    → Text
    → Text
    → Text
    → Session Db ReconciliationRecord
unfolding check_reconciler
reconcile_operation ctx port enable_v2 operation_id principal execution_id note = do
  row ← get_operation_row ctx operation_id
  check_reconciler enable_v2 principal row
  raise_if (not (state_eq row.state unknown)) reconciliation_not_applicable
  entry ← entry_for_operation row.snapshot_id row.workflow_id
  execution ← or_raise (port execution_id) reconciliation_not_applicable
  raise_if (not (text_eq execution.n8n_workflow_id entry.n8n_workflow_id))
      reconciliation_not_applicable
  write_audit ctx principal (codes "operation.reconciliation_recorded") (codes "operation")
      operation_id (codes "allowed")
      (obj (
        field (codes "execution_id") (str execution_id) (
          field (codes "n8n_workflow_id") (str execution.n8n_workflow_id) (
            field (codes "n8n_execution_status") (str execution.status)
              (field (codes "note") (str note) end)))))
  pure (record {
    operation_id = operation_id;
    execution_id = execution_id;
    n8n_workflow_id = execution.n8n_workflow_id;
    n8n_execution_status = execution.status;
    note = note;
    actor = principal;
    recorded_at = ctx.now;
  })
