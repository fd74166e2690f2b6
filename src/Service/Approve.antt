-- ===== src/Service/Approve.antt =====
-- `approve_operation` and `reject_operation` of src/n8n_operator/core/service.py.
pub mod Quorum
use n8n_operator.Base.{
  ℕ, ◌+◌, Bool, true, false, not, ◌||◌, Option, none, some, is_some, count, length, ltb, Text,
  text_eq, text_in, if◌then◌else◌,
}
use n8n_operator.Json.{obj, end}
use n8n_operator.StateMachine.{t06, t07}
use n8n_operator.Authorization.Roles.{approve_reject_capability}
use n8n_operator.Service.Outcome.{
  Session, ◌>>=◌, ◌>>◌, pure, raise_if, gets, or_raise, operation_not_found,
  approval_already_decided, assertion,
}
use n8n_operator.Service.Store.Rows.{Operation, Approval, PolicySnapshot, DecisionKind, Db, Context}
use n8n_operator.Service.Store.Operations.{no_updates}
use n8n_operator.Service.Store.Approvals.{
  create_approval, get_by_operation_id, get_by_operation_and_decider, list_for_operation,
  record_decision,
}
use n8n_operator.Service.Transition.{get_operation_row, apply_and_audit}
use n8n_operator.Service.Registry.{entry_for_operation, resolved_ttl}
use n8n_operator.Service.Access.{authorize}
use n8n_operator.Service.Handles.{hash_approval_token, compute_approval_binding}

-- `_v2_quorum_snapshot(row) if enable_v2 else None`
abbrev pub quorum_snapshot : Bool → Operation → Option PolicySnapshot
quorum_snapshot true row = row.approval_policy_snapshot
quorum_snapshot false row = none

-- `mint_approval_token`, the binding, and the new row for one approver.
unfoldable pub mint_own_approval_row : Context → Operation → Text → Session Db Approval
mint_own_approval_row ctx row decided_by = do
  minted ← gets (λ db. ctx.token_urlsafe (length db.approvals))
  expires_at ← or_raise row.approval_expires_at assertion
  create_approval ctx row.id (hash_approval_token ctx.digest minted)
      (compute_approval_binding ctx.digest row.id decided_by row.argument_fingerprint
        row.snapshot_id row.definition_hash)
      expires_at (some decided_by)

-- `_get_or_mint_own_approval_row`
unfoldable pub get_or_mint_own_approval_row : Context → Operation → Text → Session Db Approval
unfolding mint_own_approval_row
get_or_mint_own_approval_row ctx row decided_by = do
  existing ← get_by_operation_and_decider row.id decided_by
  elim existing [ some a ↦ pure a | none ↦ mint_own_approval_row ctx row decided_by ]

-- The approval of a row: the deadline of its execution, and T06.
unfoldable pub apply_approval : Context → Operation → Text → Session Db Operation
apply_approval ctx row decided_by = do
  entry ← entry_for_operation row.snapshot_id row.workflow_id
  ttl ← resolved_ttl entry.limits.execution_ttl_seconds
  apply_and_audit ctx row t06 decided_by (obj end)
      (record no_updates { execution_deadline = some (ctx.now + ttl) })

-- Without a quorum snapshot: the authorization of the decider.
unfoldable pub check_decider : Bool → Operation → Text → Session Db (Unit {0})
check_decider enable_v2 row decided_by = do
  decision ← gets (
      authorize enable_v2 decided_by approve_reject_capability (some row.workflow_id) none none
        (some row.principal_id) (some decided_by))
  raise_if (not decision.is_allowed) operation_not_found

-- The decision is noted on the operation's shared approval row, if it has one.
unfoldable pub note_decision :
    Context → Text → DecisionKind → Text → Option Text → Session Db (Unit {0})
note_decision ctx operation_id decision decided_by client_fingerprint = do
  approval ← get_by_operation_id operation_id
  elim approval [
    | none ↦ pure tt
    | some a ↦ record_decision ctx a.id decision decided_by client_fingerprint
  ]

unfoldable pub approve_shared :
    Context → Bool → Operation → Text → Text → Option Text → Session Db Operation
unfolding check_decider note_decision
approve_shared ctx enable_v2 row operation_id decided_by client_fingerprint = do
  check_decider enable_v2 row decided_by
  updated ← apply_approval ctx row decided_by
  note_decision ctx operation_id DecisionKind.approved decided_by client_fingerprint
  pure updated

unfoldable pub reject_shared :
    Context → Bool → Operation → Text → Text → Option Text → Session Db Operation
unfolding check_decider note_decision
reject_shared ctx enable_v2 row operation_id decided_by client_fingerprint = do
  check_decider enable_v2 row decided_by
  updated ← apply_and_audit ctx row t07 decided_by (obj end) no_updates
  note_decision ctx operation_id DecisionKind.rejected decided_by client_fingerprint
  pure updated

-- With a quorum snapshot: the decider is of the frozen policy, is not the requester, and has not
-- decided; then the decision is recorded on their own row.
unfoldable pub cast_vote :
    Context → PolicySnapshot → Operation → DecisionKind → Text → Option Text → Session Db (Unit {0})
unfolding get_or_mint_own_approval_row
cast_vote ctx snapshot row decision decided_by client_fingerprint = do
  raise_if
      (text_eq decided_by row.principal_id || not (text_in decided_by snapshot.eligible_approvers))
      operation_not_found
  own_row ← get_or_mint_own_approval_row ctx row decided_by
  raise_if (is_some own_row.decision) approval_already_decided
  record_decision ctx own_row.id decision decided_by client_fingerprint

abbrev pub is_approved : Approval → Bool
is_approved a = elim a.decision [ some DecisionKind.approved ↦ true | _ ↦ false ]

unfoldable pub approved_count : Text → Db → ℕ
approved_count operation_id db = count is_approved (list_for_operation operation_id db)

-- Below the quorum the row is returned as it is.
unfoldable pub approve_at_quorum :
    Context → PolicySnapshot → Operation → Text → Text → Session Db Operation
approve_at_quorum ctx snapshot row operation_id decided_by = do
  votes ← gets (approved_count operation_id)
  if ltb votes snapshot.quorum_count then pure row else apply_approval ctx row decided_by

unfoldable pub approve_quorum :
    Context → PolicySnapshot → Operation → Text → Text → Option Text → Session Db Operation
unfolding approve_at_quorum
approve_quorum ctx snapshot row operation_id decided_by client_fingerprint = do
  cast_vote ctx snapshot row DecisionKind.approved decided_by client_fingerprint
  approve_at_quorum ctx snapshot row operation_id decided_by

unfoldable pub reject_quorum :
    Context → PolicySnapshot → Operation → Text → Option Text → Session Db Operation
reject_quorum ctx snapshot row decided_by client_fingerprint = do
  cast_vote ctx snapshot row DecisionKind.rejected decided_by client_fingerprint
  apply_and_audit ctx row t07 decided_by (obj end) no_updates

unfoldable pub approve_operation : Context → Bool → Text → Text → Option Text → Session Db Operation
unfolding approve_shared approve_quorum
approve_operation ctx enable_v2 operation_id decided_by client_fingerprint = do
  row ← get_operation_row ctx operation_id
  elim (quorum_snapshot enable_v2 row) [
    | none ↦ approve_shared ctx enable_v2 row operation_id decided_by client_fingerprint
    | some snapshot ↦ approve_quorum ctx snapshot row operation_id decided_by client_fingerprint
  ]

unfoldable pub reject_operation : Context → Bool → Text → Text → Option Text → Session Db Operation
unfolding reject_shared reject_quorum
reject_operation ctx enable_v2 operation_id decided_by client_fingerprint = do
  row ← get_operation_row ctx operation_id
  elim (quorum_snapshot enable_v2 row) [
    | none ↦ reject_shared ctx enable_v2 row operation_id decided_by client_fingerprint
    | some snapshot ↦ reject_quorum ctx snapshot row decided_by client_fingerprint
  ]
