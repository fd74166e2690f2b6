-- ===== src/Service/Routing.antt =====
-- `request_approval` and `resolve_approval_token` of src/n8n_operator/core/service.py.
use n8n_operator.Service.Store.Logs.{write_audit}
use n8n_operator.Service.Transition.{get_operation_row}
use n8n_operator.Service.Handles.{compute_approval_binding, hash_approval_token}
use n8n_operator.Service.Notify.{deliver_with_dedup}
use n8n_operator.Service.Store.Approvals.{list_for_operation, get_by_token_hash}
use n8n_operator.Service.Access.{get_owned_operation_row}
use n8n_operator.Service.Approve.{get_or_mint_own_approval_row}
use n8n_operator.Service.Ports.{NotificationEvent, NotificationSink}
use n8n_operator.Service.Store.Rows.{Operation, Db, Approval, Context}
use n8n_operator.Base.{
  text_eq, opt_text_eq, not, ◌&&◌, [], any, is_some, if◌then◌else◌, ◌++◌, text_in, codes, Bool, ℕ,
  ◌∷◌, keep, List, Text, Option, none, some,
}
use n8n_operator.Json.{end, arr, field, obj, str, Json, Items, nil, cons}
use n8n_operator.StateMachine.{pending_approval, State, state_eq}
use n8n_operator.Service.Outcome.{
  assertion, approval_not_pending, gets, approval_token_already_used, approval_token_invalid,
  invalid_state_transition, approver_not_in_policy, or_raise, raise_if, pure, Session, ◌>>=◌, ◌>>◌,
}

pub record RequestApprovalResult : Type 0 where
  pub operation_id : Text
  pub quorum_count : ℕ
  pub approval_policy_snapshot : List Text
  pub notified : List Text
  pub state : State

-- `approvers` must be a part of the frozen policy.
unfoldable pub check_approvers : Option (List Text) → List Text → Session Db (Unit {0})
check_approvers none eligible = pure tt
check_approvers (some approvers) eligible =
    raise_if (any (λ p. not (text_in p eligible)) approvers) approver_not_in_policy

abbrev pub targets : Option (List Text) → List Text → List Text
targets none eligible = eligible
targets (some approvers) eligible = keep (λ p. text_in p approvers) eligible

abbrev pub has_decided : Text → Approval → Bool
has_decided target a = is_some a.decision && opt_text_eq a.decided_by (some target)

abbrev pub already_decided : Text → List Approval → Bool
already_decided target approvals = any (has_decided target) approvals

abbrev pub requested_event : Context → Text → Text → NotificationEvent
requested_event ctx operation_id target = record {
  event_type = codes "approval.requested";
  subject_type = codes "operation";
  subject_id = operation_id;
  principal_id = some target;
  occurred_at = ctx.now;
  fetch_reference = codes "n8n-operator operations approval-status " ++ operation_id;
}

unfoldable pub notify_target :
    Context → NotificationSink → Operation → Text → Text → Session Db (Unit {0})
notify_target ctx sink row operation_id target = do
  get_or_mint_own_approval_row ctx row target
  deliver_with_dedup ctx sink (requested_event ctx operation_id target)
  pure tt

-- The loop over the targets: who was notified, given the decisions as they were before it.
unfoldable pub notify_targets :
    Context
    → NotificationSink
    → Operation
    → Text
    → List Approval
    → List Text
    → Session Db (List Text)
unfolding notify_target
notify_targets ctx sink row operation_id approvals [] = pure []
notify_targets ctx sink row operation_id approvals (target ∷ rest) =
    let others = notify_targets ctx sink row operation_id approvals rest in
    if already_decided target approvals
    then others
    else (notify_target ctx sink row operation_id target >>= λ _.
        others >>= λ notified. pure (target ∷ notified))

pub text_items : List Text → Items
text_items [] = nil
text_items (t ∷ ts) = cons (str t) (text_items ts)

-- A message that is not empty is kept in the entry.
abbrev pub routed_detail : List Text → Option Text → Json
routed_detail notified (some (c ∷ message)) = obj (
    field (codes "notified") (arr (text_items notified))
      (field (codes "message") (str (c ∷ message)) end))
routed_detail notified _ = obj (field (codes "notified") (arr (text_items notified)) end)

unfoldable pub request_approval :
    Context
    → NotificationSink
    → Bool
    → Text
    → Text
    → Option (List Text)
    → Option Text
    → Session Db RequestApprovalResult
unfolding notify_targets check_approvers
request_approval ctx sink enable_v2 operation_id principal approvers message = do
  row ← get_owned_operation_row ctx enable_v2 operation_id principal (codes "request_approval")
  raise_if (not (state_eq row.state pending_approval)) invalid_state_transition
  snapshot ← or_raise row.approval_policy_snapshot invalid_state_transition
  check_approvers approvers snapshot.eligible_approvers
  approvals ← gets (list_for_operation operation_id)
  notified ←
      notify_targets ctx sink row operation_id approvals
        (targets approvers snapshot.eligible_approvers)
  write_audit ctx principal (codes "approval.routed") (codes "operation") operation_id
      (codes "allowed") (routed_detail notified message)
  pure (record {
    operation_id = operation_id;
    quorum_count = snapshot.quorum_count;
    approval_policy_snapshot = snapshot.eligible_approvers;
    notified = notified;
    state = row.state;
  })

-- `approval_row.assigned_to or row.principal_id`
abbrev pub bound_to : Option Text → Text → Text
bound_to (some (c ∷ s)) principal = c ∷ s
bound_to _ principal = principal

-- The checks of `resolve_approval_token`; the page that is then shown is not modelled.
unfoldable pub resolve_approval_token : Context → Text → Session Db (Operation × Approval)
resolve_approval_token ctx token = do
  found ← get_by_token_hash (hash_approval_token ctx.digest token)
  approval ← or_raise found approval_token_invalid
  raise_if (is_some approval.decision) approval_token_already_used
  row ← get_operation_row ctx approval.operation_id
  raise_if (not (state_eq row.state pending_approval)) approval_not_pending
  raise_if
      (not (
        text_eq
          (compute_approval_binding ctx.digest row.id
            (bound_to approval.assigned_to row.principal_id) row.argument_fingerprint
            row.snapshot_id row.definition_hash)
          approval.binding_hash))
      assertion
  pure (row, approval)
