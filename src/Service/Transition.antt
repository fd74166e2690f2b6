-- ===== src/Service/Transition.antt =====
-- The transitions of an existing row (`_apply_and_audit`, `_record_creation`, `_apply_lazy_expiry`
-- and the two reads that apply it) of src/n8n_operator/core/service.py.
pub mod Selected
pub mod Contract
pub mod Read
use n8n_operator.Base.{ℕ, [], Option, none, some, Text, codes, if◌then◌else◌}
use n8n_operator.Json.{Json, obj, end}
use n8n_operator.StateMachine.{
  Transition, TransitionId, t01, t02, t03, t04, t05, t06, t07, t08, t09, t10, t11, t12, t13, t14,
  t15, unlisted, preparing, validate_transition, overdue_expiry_transition,
}
use n8n_operator.Service.Outcome.{
  Session, ok, err, ◌>>=◌, ◌>>◌, pure, raise, gets, or_raise, operation_not_found,
  invalid_state_transition, optimistic_lock, assertion, OperatorError,
}
use n8n_operator.Service.Store.Rows.{Operation, Db, Context}
use n8n_operator.Service.Store.Operations.{
  get_operation, FieldUpdates, no_updates, apply_transition,
}
use n8n_operator.Service.Store.Logs.{append_event, write_audit}

-- `_TRANSITION_ACTION`
pub transition_action : TransitionId → Text
transition_action t01 = codes "operation.prepared"
transition_action t02 = codes "operation.invalid"
transition_action t03 = codes "operation.blocked"
transition_action t04 = codes "operation.pending_approval"
transition_action t05 = codes "operation.auto_approved"
transition_action t06 = codes "operation.approved"
transition_action t07 = codes "operation.rejected"
transition_action t08 = codes "operation.expired"
transition_action t09 = codes "operation.canceled"
transition_action t10 = codes "operation.execution_started"
transition_action t11 = codes "operation.expired"
transition_action t12 = codes "operation.canceled"
transition_action t13 = codes "operation.succeeded"
transition_action t14 = codes "operation.failed"
transition_action t15 = codes "operation.indeterminate"
transition_action unlisted = []

-- `_TRANSITION_OUTCOME`
pub transition_outcome : TransitionId → Text
transition_outcome t01 = codes "allowed"
transition_outcome t04 = codes "allowed"
transition_outcome t05 = codes "allowed"
transition_outcome t06 = codes "allowed"
transition_outcome t10 = codes "allowed"
transition_outcome t13 = codes "allowed"
transition_outcome t14 = codes "error"
transition_outcome t15 = codes "error"
transition_outcome unlisted = []
transition_outcome _ = codes "denied"

abbrev pub operation_subject : Text
operation_subject = codes "operation"

-- `except OptimisticLockError`: a failed compare-and-set has written nothing.
unfoldable pub on_optimistic_lock : {A : Type 0} → Session Db A → Session Db A → Session Db A
on_optimistic_lock m handler db = elim (m db) [
  | ok a db' ↦ ok a db'
  | err optimistic_lock kept ↦ handler db
  | err e kept ↦ err e kept
]

-- One attempt: the gate, then the compare-and-set and the event, for a row as it was read.
unfoldable pub attempt :
    Context → Operation → TransitionId → Text → Json → FieldUpdates → Session Db Operation
attempt ctx row id actor detail u = do
  transition ← or_raise (validate_transition id (some row.state)) invalid_state_transition
  apply_transition ctx row.id row.state_version transition.to_state id (some row.state) actor detail
      u

-- `OperationRepository.get` of a row that the session has read before: `Session.get` returns the
-- object in the identity map, as it was read, while the session holds it; else it reads the table.
unfoldable pub get_again : Context → Operation → Db → Option Operation
get_again ctx row db = if ctx.holds ctx.now row then some row else get_operation row.id db

-- The attempt, and after a lost race one more on what the session gets for the row.
unfoldable pub attempt_with_retry :
    Context → Operation → TransitionId → Text → Json → FieldUpdates → Session Db Operation
unfolding attempt get_again
attempt_with_retry ctx row id actor detail u =
    on_optimistic_lock (attempt ctx row id actor detail u) (do
      current ← gets (get_again ctx row)
      current_row ← or_raise current assertion
      attempt ctx current_row id actor detail u)

-- `_apply_and_audit`
unfoldable pub apply_and_audit :
    Context → Operation → TransitionId → Text → Json → FieldUpdates → Session Db Operation
unfolding attempt_with_retry transition_action transition_outcome
apply_and_audit ctx row id actor detail u = do
  updated ← attempt_with_retry ctx row id actor detail u
  write_audit ctx actor (transition_action id) operation_subject row.id (transition_outcome id)
      detail
  pure updated

-- `_record_creation`
unfoldable pub record_creation : Context → Operation → Text → Json → Session Db (Unit {0})
unfolding transition_action transition_outcome
record_creation ctx row actor detail = do
  append_event (record {
    operation_id = row.id;
    from_state = none;
    to_state = preparing;
    transition = t01;
    actor = actor;
    detail = detail;
    occurred_at = ctx.now;
  })
  write_audit ctx actor (transition_action t01) operation_subject row.id (transition_outcome t01)
      detail

-- `except InvalidStateTransitionError`: the gate refused before anything was written.
unfoldable pub on_invalid_transition : {A : Type 0} → Session Db A → Session Db A → Session Db A
on_invalid_transition m handler db = elim (m db) [
  | ok a db' ↦ ok a db'
  | err invalid_state_transition kept ↦ handler db
  | err e kept ↦ err e kept
]

-- A transition on the clock; when another session has moved the row meanwhile, what the session gets
-- for it.
unfoldable pub expire_row : Context → Operation → Transition → Session Db Operation
unfolding apply_and_audit get_again
expire_row ctx row transition =
    on_invalid_transition
      (apply_and_audit ctx row transition.id (codes "clock") (obj end) no_updates)
      (do refreshed ← gets (get_again ctx row); or_raise refreshed assertion)

-- `_apply_lazy_expiry`
unfoldable pub apply_lazy_expiry : Context → Operation → Session Db Operation
unfolding expire_row
apply_lazy_expiry ctx row =
    elim (overdue_expiry_transition row.state ctx.now row.approval_expires_at
      row.execution_deadline) [ none ↦ pure row | some transition ↦ expire_row ctx row transition ]

-- `_get_operation_row`; `_get_operation_row_for_update` is the same read under a row lock.
unfoldable pub get_operation_row : Context → Text → Session Db Operation
unfolding apply_lazy_expiry
get_operation_row ctx operation_id = do
  found ← gets (get_operation operation_id)
  row ← or_raise found operation_not_found
  apply_lazy_expiry ctx row
