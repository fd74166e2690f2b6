-- ===== src/Service/Store/Operations.antt =====
-- `OperationRepository`.
use n8n_operator.Base.{
  false, any, ℕ, ◌+◌, ◌==◌, ◌&&◌, ◌||◌, not, Bool, Option, none, some, is_some, List, [], ◌∷◌, ◌++◌,
  first, count, leb, Text, text_eq, opt_text_eq, if◌then◌else◌,
}
use n8n_operator.StateMachine.{State, state_eq, TransitionId}
use n8n_operator.Json.{Json}
use n8n_operator.Service.Outcome.{integrity_error, Session, ok, err, optimistic_lock, assertion}
use n8n_operator.Service.Store.Rows.{Identity, PolicySnapshot, Operation, Db, Context}

-- `session.get(Operation, operation_id)`
unfoldable pub get_operation : Text → Db → Option Operation
get_operation operation_id db = first (λ o. text_eq o.id operation_id) db.operations

-- The columns that a caller may pass to `compare_and_set_state`; `none` leaves a column as it is.
pub record FieldUpdates : Type 0 where
  pub approval_expires_at : Option ℕ
  pub execution_deadline : Option ℕ
  pub approval_policy_snapshot : Option PolicySnapshot
  pub n8n_execution_id : Option Text

abbrev pub no_updates : FieldUpdates
no_updates = record {
  approval_expires_at = none;
  execution_deadline = none;
  approval_policy_snapshot = none;
  n8n_execution_id = none;
}

abbrev or_else {ℓ} : {A : Type ℓ} → Option A → Option A → Option A
or_else none old = old
or_else (some new) old = some new

-- `.values(**values)` on one row
unfoldable pub moved : Context → ℕ → State → FieldUpdates → Operation → Operation
moved ctx expected_version new_state u o = record o {
  state = new_state;
  state_version = expected_version + 1;
  updated_at = ctx.now;
  approval_expires_at = or_else u.approval_expires_at o.approval_expires_at;
  execution_deadline = or_else u.execution_deadline o.execution_deadline;
  approval_policy_snapshot = or_else u.approval_policy_snapshot o.approval_policy_snapshot;
  n8n_execution_id = or_else u.n8n_execution_id o.n8n_execution_id;
}

-- `UPDATE operations SET ... WHERE ...`
unfoldable pub update_where :
    (Operation → Bool) → (Operation → Operation) → List Operation → List Operation
update_where p f [] = []
update_where p f (o ∷ os) = (if p o then f o else o) ∷ update_where p f os

abbrev pub at_version : Text → ℕ → Operation → Bool
at_version operation_id expected_version o =
    text_eq o.id operation_id && o.state_version == expected_version

unfoldable pub compare_and_set_state :
    Context → Text → ℕ → State → FieldUpdates → Session Db Operation
unfolding get_operation
compare_and_set_state ctx operation_id expected_version new_state u db =
    let matches = at_version operation_id expected_version in
    let db' = record db {
      operations = update_where matches (moved ctx expected_version new_state u) db.operations;
    } in
    if not (count matches db.operations == 1)
    then err optimistic_lock none
    else elim (get_operation operation_id db') [ none ↦ err assertion none | some o ↦ ok o db' ]

abbrev pub is_unburned : Text → Operation → Bool
is_unburned operation_id o = text_eq o.id operation_id && not (is_some o.handle_burned_at)

unfoldable pub burn_handle : Context → Text → Session Db Bool
burn_handle ctx operation_id db =
    ok (count (is_unburned operation_id) db.operations == 1) (record db {
      operations =
          update_where (is_unburned operation_id)
            (λ o. record o { handle_burned_at = some ctx.now }) db.operations;
    })

unfoldable pub apply_transition :
    Context
    → Text
    → ℕ
    → State
    → TransitionId
    → Option State
    → Text
    → Json
    → FieldUpdates
    → Session Db Operation
unfolding compare_and_set_state
apply_transition ctx operation_id expected_version new_state transition from_state actor detail u
      db =
    elim (compare_and_set_state ctx operation_id expected_version new_state u db) [
      | err e kept ↦ err e kept
      | ok o db' ↦ ok o (record db' {
        events =
            db'.events
            ++ record {
              operation_id = operation_id;
              from_state = from_state;
              to_state = new_state;
              transition = transition;
              actor = actor;
              detail = detail;
              occurred_at = ctx.now;
            }
              ∷ [];
      })
    ]

-- `count_in_states` for one state
unfoldable pub count_in_state : Text → State → Db → ℕ
count_in_state workflow_id s db =
    count (λ o. text_eq o.workflow_id workflow_id && state_eq o.state s) db.operations

unfoldable pub count_recent : Text → ℕ → Db → ℕ
count_recent workflow_id since db =
    count (λ o. text_eq o.workflow_id workflow_id && leb since o.created_at) db.operations

abbrev pub in_namespace : Text → Text → Text → Text → Operation → Bool
in_namespace principal_id environment workflow_id key o =
    text_eq o.principal_id principal_id
    && text_eq o.environment environment
    && text_eq o.workflow_id workflow_id
    && opt_text_eq o.idempotency_key (some key)

unfoldable pub find_by_idempotency : Text → Text → Text → Text → Db → Option Operation
find_by_idempotency principal_id environment workflow_id key db =
    first (in_namespace principal_id environment workflow_id key) db.operations

-- The unique constraints of the table: the primary key, and `uq_operations_idempotency_namespace`.
abbrev same_key : Identity → Text → Operation → Bool
same_key new key o = in_namespace new.principal_id new.environment new.workflow_id key o

unfoldable pub violates_unique : Identity → List Operation → Bool
violates_unique new operations =
    any (λ o. text_eq o.id new.id) operations
    || elim new.idempotency_key [ none ↦ false | some key ↦ any (same_key new key) operations ]

abbrev pub new_operation : Context → Identity → State → Operation
new_operation ctx new state = record {
  identity = new;
  state = state;
  state_version = 1;
  handle_burned_at = none;
  approval_expires_at = none;
  execution_deadline = none;
  approval_policy_snapshot = none;
  n8n_execution_id = none;
  updated_at = ctx.now;
}

-- `OperationRepository.create`
unfoldable pub create_operation : Context → Identity → State → Session Db Operation
unfolding violates_unique
create_operation ctx new state db =
    if violates_unique new db.operations
    then err integrity_error none
    else ok (new_operation ctx new state)
        (record db { operations = db.operations ++ new_operation ctx new state ∷ [] })
