-- ===== src/Service/History/UseCases.antt =====
-- The use cases on an existing operation are safe: `cancel_operation`, `execute_operation`,
-- `approve_operation` and `reject_operation` of src/n8n_operator/core/service.py.
use n8n_operator.Service.Store.Operations.{no_updates, count_in_state}
use n8n_operator.Service.Ports.{PreflightPort}
use n8n_operator.Service.History.Tables.{burn_handle-SafeAt}
use n8n_operator.Service.Registry.{find_entry, require_active_snapshot}
use n8n_operator.Service.Transition.{apply_and_audit}
use n8n_operator.Service.Outcome.{
  invalid_state_transition, raise, registry_unavailable, or_raise, assertion, Session,
}
use n8n_operator.Service.History.Transitions.{apply_and_audit-SafeAt, get_operation_row-SafeAt}
use n8n_operator.StateMachine.{t12, t09, State}
use n8n_operator.Service.History.Held.{Held-Evolves, Held}
use n8n_operator.Service.History.Safe.{
  SafeAt-or_raise_last, SafeAt-raise, SafeAt-or_raise, SafeAt-if, SafeAt-pure, SafeAt-gets,
  SafeAt-bind, Anything, SafeAt-raise_if, SafeAt,
}
use n8n_operator.Service.History.Rows.{IsKeyed}
use n8n_operator.Service.Execute.{
  reason_detail, verify_live_before_execute, start_execution, check_executable, require_approved,
  execute_operation, cancel_operation, cancel_row,
}
use n8n_operator.Service.Access.{
  get_environment, get_owned_operation_row, organization_of, check_not_owner,
}
use n8n_operator.Service.Store.Rows.{WorkflowEntry, Operation, Db, Context}
use n8n_operator.StateMachine.{State, pending_approval, approved, expired, canceled, executing}
use n8n_operator.Base.{Bool, Option, none, some, Text}

module _ (ctx : Context) where
  pub organization_of-SafeAt :
      (d : Db) (e : Option Text) → IsKeyed d.operations → SafeAt ctx d Anything (organization_of e)
  unfolding organization_of
  organization_of-SafeAt d none k = SafeAt-pure ctx d Anything none k tt
  organization_of-SafeAt d (some e) k = SafeAt-gets ctx d Anything (get_environment e) _ (
      SafeAt-or_raise ctx d Anything (get_environment e d) assertion _
        λ found _. SafeAt-pure ctx d Anything (some found.organization_id) k tt)

  check_not_owner-SafeAt :
      (d : Db) (v2 : Bool) (p tool : Text) (row : Operation)
      → IsKeyed d.operations
      → Held row d
      → SafeAt ctx d Held (check_not_owner v2 p tool row)
  unfolding check_not_owner
  check_not_owner-SafeAt d v2 p tool row k held = SafeAt-raise_if ctx d Held _ _ _ λ _.
      SafeAt-bind ctx Anything Held d _ _ (organization_of-SafeAt d row.environment_id k)
        λ organization d' e _. SafeAt-gets ctx d' Held _ _ (
          SafeAt-raise_if ctx d' Held _ _ _
            λ _. SafeAt-pure ctx d' Held row e.keyed (Held-Evolves ctx row d d' e held))

  pub get_owned_operation_row-SafeAt :
      (d : Db) (v2 : Bool) (i p tool : Text)
      → IsKeyed d.operations
      → SafeAt ctx d Held (get_owned_operation_row ctx v2 i p tool)
  unfolding get_owned_operation_row
  get_owned_operation_row-SafeAt d v2 i p tool k =
      SafeAt-bind ctx Held Held d _ _ (get_operation_row-SafeAt ctx d i k) λ row d' e held.
        SafeAt-if ctx d' Held _ _ _ (λ _. SafeAt-pure ctx d' Held row e.keyed held)
          (λ _. check_not_owner-SafeAt d' v2 p tool row e.keyed held)

  cancel_row-SafeAt :
      (d : Db) (p : Text) (reason : Option Text) (row : Operation)
      → IsKeyed d.operations
      → Held row d
      → SafeAt ctx d Held (cancel_row ctx p reason row)
  unfolding cancel_row
  cancel_row-SafeAt d p reason row k held = go row.state
    where
      go :
          (s : State)
          → SafeAt ctx d Held (elim s as (λ _. Session Db Operation) [
            | pending_approval ↦ apply_and_audit ctx row t09 p (reason_detail reason) no_updates
            | approved ↦ apply_and_audit ctx row t12 p (reason_detail reason) no_updates
            | _ ↦ raise invalid_state_transition
          ])
      go pending_approval = apply_and_audit-SafeAt ctx d row _ _ _ _ k held
      go approved = apply_and_audit-SafeAt ctx d row _ _ _ _ k held
      go _ = SafeAt-raise ctx d Held _

  pub cancel_operation-SafeAt :
      (d : Db) (v2 : Bool) (i p : Text) (reason : Option Text)
      → IsKeyed d.operations
      → SafeAt ctx d Held (cancel_operation ctx v2 i p reason)
  unfolding cancel_operation
  cancel_operation-SafeAt d v2 i p reason k =
      SafeAt-bind ctx Held Held d _ _ (get_owned_operation_row-SafeAt d v2 i p _ k)
        λ row d' e held. cancel_row-SafeAt d' p reason row e.keyed held

  require_approved-SafeAt :
      (d : Db) (s : State) → IsKeyed d.operations → SafeAt ctx d Anything (require_approved s)
  unfolding require_approved
  require_approved-SafeAt d approved k = SafeAt-pure ctx d Anything tt k tt
  require_approved-SafeAt d pending_approval k = SafeAt-raise ctx d Anything _
  require_approved-SafeAt d expired k = SafeAt-raise ctx d Anything _
  require_approved-SafeAt d canceled k = SafeAt-raise ctx d Anything _
  require_approved-SafeAt d _ k = SafeAt-raise ctx d Anything _

  pub require_active_snapshot-SafeAt :
      (d : Db) → IsKeyed d.operations → SafeAt ctx d Anything require_active_snapshot
  unfolding require_active_snapshot
  require_active_snapshot-SafeAt d k =
      SafeAt-gets ctx d Anything _ (λ s. or_raise s registry_unavailable)
        (SafeAt-or_raise_last ctx d Anything _ registry_unavailable k λ _ _. tt)

  check_executable-SafeAt :
      (d : Db) (row : Operation)
      → IsKeyed d.operations
      → SafeAt ctx d Anything (check_executable ctx row)
  unfolding check_executable
  check_executable-SafeAt d row k = SafeAt-raise_if ctx d Anything _ _ _ λ _.
      SafeAt-bind ctx Anything Anything d _ _ (require_approved-SafeAt d row.state k) λ _ d' e _.
        SafeAt-raise_if ctx d' Anything _ _ _ λ _.
          SafeAt-bind ctx Anything Anything d' _ _ (require_active_snapshot-SafeAt d' e.keyed)
            λ snapshot d'' e' _.
              SafeAt-or_raise ctx d'' Anything (find_entry snapshot.workflows row.workflow_id) _ _
                λ entry _.
                  SafeAt-raise_if ctx d'' Anything _ _ _
                    λ _. SafeAt-pure ctx d'' Anything entry e'.keyed tt

  start_execution-SafeAt :
      (d : Db) (p i : Text) (row : Operation) (entry : WorkflowEntry)
      → IsKeyed d.operations
      → Held row d
      → SafeAt ctx d Held (start_execution ctx p i row entry)
  unfolding start_execution
  start_execution-SafeAt d p i row entry k held =
      SafeAt-bind ctx Anything Held d _ _ (burn_handle-SafeAt ctx d i k) λ _ d' e _.
        SafeAt-raise_if ctx d' Held _ _ _ λ _.
          SafeAt-gets ctx d' Held (count_in_state row.workflow_id executing) _ (
            SafeAt-raise_if ctx d' Held _ _ _ λ _.
              apply_and_audit-SafeAt ctx d' row _ _ _ _ e.keyed (Held-Evolves ctx row d d' e held))

  pub execute_operation-SafeAt :
      (d : Db) (preflight : PreflightPort) (v2 : Bool) (environment i handle p : Text)
      → IsKeyed d.operations
      → SafeAt ctx d Held (execute_operation ctx preflight v2 environment i handle p)
  unfolding execute_operation verify_live_before_execute
  execute_operation-SafeAt d preflight v2 environment i handle p k =
      SafeAt-raise_if ctx d Held _ _ _ λ _.
        SafeAt-bind ctx Held Held d _ _ (get_owned_operation_row-SafeAt d v2 i p _ k)
          λ row d' e held. SafeAt-raise_if ctx d' Held _ _ _ λ _.
            SafeAt-bind ctx Anything Held d' _ _ (check_executable-SafeAt d' row e.keyed)
              λ entry d'' e' _. SafeAt-raise_if ctx d'' Held _ _ _ λ _.
                start_execution-SafeAt d'' p i row entry e'.keyed
                  (Held-Evolves ctx row d' d'' e' held)
