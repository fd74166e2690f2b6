-- ===== src/Service/History/Transitions.antt =====
-- The transitions of src/n8n_operator/core/service.py are safe for a row that is held: one that
-- was read from the table, however much the table's row has moved on since.
use n8n_operator.Base.{refl, Text}
use n8n_operator.Json.{Json}
use n8n_operator.StateMachine.{overdue_expiry_transition, Transition, TransitionId}
use n8n_operator.Audit.Verify.{verify_chain-write}
use n8n_operator.Service.Outcome.{
  pure, or_raise, Session, Result, ok, err, optimistic_lock, assertion, invalid_state_transition,
  operation_not_found,
}
use n8n_operator.Service.Store.Rows.{OperationEvent, Operation, Db, Context}
use n8n_operator.Service.Store.Operations.{get_operation, FieldUpdates}
use n8n_operator.Service.Store.Logs.{append_event, write_audit}
use n8n_operator.Service.Transition.{
  attempt_with_retry, get_again, expire_row, apply_and_audit, apply_lazy_expiry, get_operation_row,
  on_optimistic_lock, on_invalid_transition, record_creation,
}
use n8n_operator.Service.History.Rows.{Follows-refl, IsKeyed}
use n8n_operator.Service.History.Safe.{
  Ends, SafeAt, SafeAt-bind, SafeAt-or_raise_last, SafeAt-option, SafeAt-or_raise, SafeAt-gets,
  SafeAt-pure, Anything,
}
use n8n_operator.Service.History.Held.{Held, Held-Evolves, Held-get, Held-get_again, attempt-SafeAt}

module _ (ctx : Context) where
  pub write_audit-SafeAt :
      (d : Db) (actor action subject_type subject_id outcome : Text) (detail : Json)
      → IsKeyed d.operations
      → SafeAt ctx d Anything (write_audit ctx actor action subject_type subject_id outcome detail)
  unfolding write_audit SafeAt
  write_audit-SafeAt d actor action subject_type subject_id outcome detail k = (
    record {
      keyed = k;
      rows = Follows-refl d.operations;
      log = verify_chain-write ctx.digest _ d.audit_log;
    },
    tt,
  )

  append_event-SafeAt :
      (d : Db) (event : OperationEvent)
      → IsKeyed d.operations
      → SafeAt ctx d Anything (append_event event)
  unfolding append_event SafeAt
  append_event-SafeAt d event k =
      (record { keyed = k; rows = Follows-refl d.operations; log = refl }, tt)

  on_optimistic_lock-SafeAt :
      {A : Type 0} (d : Db) (Q : A → Db → Type 0) (m handler : Session Db A)
      → SafeAt ctx d Q m
      → SafeAt ctx d Q handler
      → SafeAt ctx d Q (on_optimistic_lock m handler)
  unfolding on_optimistic_lock SafeAt
  on_optimistic_lock-SafeAt {A} d Q m handler p q = go (m d) p
    where
      go :
          (r : Result Db A)
          → Ends ctx d Q r
          → Ends ctx d Q (elim r as (λ _. Result Db A) [
            | ok a d' ↦ ok a d'
            | err optimistic_lock kept ↦ handler d
            | err e kept ↦ err e kept
          ])
      go (ok a d') h = h
      go (err optimistic_lock kept) h = q
      go (err e kept) h = h

  on_invalid_transition-SafeAt :
      {A : Type 0} (d : Db) (Q : A → Db → Type 0) (m handler : Session Db A)
      → SafeAt ctx d Q m
      → SafeAt ctx d Q handler
      → SafeAt ctx d Q (on_invalid_transition m handler)
  unfolding on_invalid_transition SafeAt
  on_invalid_transition-SafeAt {A} d Q m handler p q = go (m d) p
    where
      go :
          (r : Result Db A)
          → Ends ctx d Q r
          → Ends ctx d Q (elim r as (λ _. Result Db A) [
            | ok a d' ↦ ok a d'
            | err invalid_state_transition kept ↦ handler d
            | err e kept ↦ err e kept
          ])
      go (ok a d') h = h
      go (err invalid_state_transition kept) h = q
      go (err e kept) h = h

  -- A held row moves, if at all, by a documented transition, and the result is held.
  pub apply_and_audit-SafeAt :
      (d : Db) (row : Operation) (t : TransitionId) (actor : Text) (detail : Json)
      (u : FieldUpdates)
      → IsKeyed d.operations
      → Held row d
      → SafeAt ctx d Held (apply_and_audit ctx row t actor detail u)
  unfolding apply_and_audit attempt_with_retry
  apply_and_audit-SafeAt d row t actor detail u k held =
      SafeAt-bind ctx Held Held d _ _
        (on_optimistic_lock-SafeAt d Held _ _ (attempt-SafeAt ctx d row t actor detail u k held) (
          SafeAt-gets ctx d Held (get_again ctx row) _ (
            SafeAt-or_raise ctx d Held (get_again ctx row d) assertion _ λ current found.
              attempt-SafeAt ctx d current t actor detail u k
                (Held-get_again ctx d row current held found))))
        λ updated d' e moved.
          SafeAt-bind ctx Anything Held d' _ _
            (write_audit-SafeAt d' actor _ _ row.id _ detail e.keyed)
            λ _ d'' e' _.
              SafeAt-pure ctx d'' Held updated e'.keyed (Held-Evolves ctx updated d' d'' e' moved)

  pub record_creation-SafeAt :
      (d : Db) (row : Operation) (actor : Text) (detail : Json)
      → IsKeyed d.operations
      → SafeAt ctx d Anything (record_creation ctx row actor detail)
  unfolding record_creation
  record_creation-SafeAt d row actor detail k =
      SafeAt-bind ctx Anything Anything d _ _ (append_event-SafeAt d _ k)
        λ _ d' e _. write_audit-SafeAt d' actor _ _ row.id _ detail e.keyed

  expire_row-SafeAt :
      (d : Db) (row : Operation) (t : Transition)
      → IsKeyed d.operations
      → Held row d
      → SafeAt ctx d Held (expire_row ctx row t)
  unfolding expire_row
  expire_row-SafeAt d row t k held =
      on_invalid_transition-SafeAt d Held _ _ (apply_and_audit-SafeAt d row t.id _ _ _ k held) (
        SafeAt-gets ctx d Held (get_again ctx row) (λ o. or_raise o assertion)
          (SafeAt-or_raise_last ctx d Held (get_again ctx row d) assertion k
            λ refreshed found. Held-get_again ctx d row refreshed held found))

  pub apply_lazy_expiry-SafeAt :
      (d : Db) (row : Operation)
      → IsKeyed d.operations
      → Held row d
      → SafeAt ctx d Held (apply_lazy_expiry ctx row)
  unfolding apply_lazy_expiry
  apply_lazy_expiry-SafeAt d row k held =
      SafeAt-option ctx d Held
        (overdue_expiry_transition row.state ctx.now row.approval_expires_at row.execution_deadline)
        (pure row) (expire_row ctx row) (SafeAt-pure ctx d Held row k held)
        λ transition due. expire_row-SafeAt d row transition k held

  -- A row that is read by its id, with its expiry applied, is held.
  pub get_operation_row-SafeAt :
      (d : Db) (i : Text) → IsKeyed d.operations → SafeAt ctx d Held (get_operation_row ctx i)
  unfolding get_operation_row
  get_operation_row-SafeAt d i k = SafeAt-gets ctx d Held (get_operation i) _ (
      SafeAt-or_raise ctx d Held (get_operation i d) operation_not_found _
        λ row found. apply_lazy_expiry-SafeAt d row k (Held-get ctx i d row found))
