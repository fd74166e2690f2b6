-- ===== src/Examples/Operations.antt =====
-- Runs of the use cases of src/n8n_operator/core/service.py on one operation.
use n8n_operator.Json.Nfc.{canonicalize_arguments}
use n8n_operator.Service.Execute.Progress.{execute_operation_progress}
use n8n_operator.Audit.Writer.{get_last_hash, write}
use n8n_operator.Service.Store.Logs.{write_audit}
use n8n_operator.Service.Registry.{find_entry, require_active_snapshot}
use n8n_operator.Service.Access.{get_owned_operation_row}
use n8n_operator.StateMachine.Legal.{◌⟶*◌}
use n8n_operator.Examples.Access.{base_entry}
use n8n_operator.Service.Execute.Contract.{execute_operation_lem, MayExecute}
use n8n_operator.Service.Execute.Checks.{burned_row, MayActOn}
use n8n_operator.Json.{utf8, null}
use n8n_operator.Examples.Log.{plain, two_entries}
use n8n_operator.Service.Transition.{
  on_optimistic_lock, attempt_with_retry, attempt, apply_lazy_expiry, get_operation_row,
  apply_and_audit,
}
use n8n_operator.StateMachine.{
  overdue_expiry_transition, approved, rejected, canceled, is_terminal, executing,
  validate_transition,
}
use n8n_operator.Audit.Chain.{compute_entry_hash, verify_chain}
use n8n_operator.Service.Store.Operations.{
  update_where, count_in_state, compare_and_set_state, apply_transition, burn_handle, no_updates,
  moved, get_operation,
}
use n8n_operator.Service.Sessions.{cancel, execute, Call}
use n8n_operator.Service.Calls.{
  after_lem, after_terminal, execute_operation_once, after-verify_chain, after,
}
use n8n_operator.Service.Execute.{
  start_execution, check_executable, verify_live_before_execute, fingerprint_arguments,
  require_approved, execute_operation,
}
use n8n_operator.Service.Outcome.{pure, or_raise, gets, raise_if, ◌>>=◌, ok, session_scope, Session}
use n8n_operator.Service.Ports.{PreflightPort}
use n8n_operator.Service.Store.Rows.{approved, rejected, Operation, Context, Db}
use n8n_operator.Base.{
  ◌⊎◌, inr, text_eq, arith, refl, ◌≡◌, true, false, none, some, is_some, Option, Text, codes, List,
  [], ◌∷◌, ℕ, ◌∙◌,
}

abbrev pub ctx : Context
ctx = record {
  now = 10;
  digest = plain;
  new_ulid = λ n. n ∷ [];
  token_urlsafe = λ n. n ∷ [];
  holds = λ n o. false;
}

-- An approved operation of ana.
abbrev pub approved_op : Operation
approved_op = record {
  identity = record {
    id = codes "op";
    principal_id = codes "ana";
    environment = codes "e";
    environment_id = none;
    organization_id = none;
    snapshot_id = codes "s";
    workflow_id = codes "close";
    definition_hash = codes "h";
    arguments = null;
    argument_fingerprint = codes "sha256:null";
    argument_bytes = 4;
    idempotency_key = none;
    parent_operation_id = none;
    created_at = 1;
  };
  state = approved;
  state_version = 3;
  handle_burned_at = none;
  approval_expires_at = some 20;
  execution_deadline = some 20;
  approval_policy_snapshot = none;
  n8n_execution_id = none;
  updated_at = 2;
}

abbrev pub db : Db
db = record {
  operations = approved_op ∷ [];
  events = [];
  audit_log = [];
  approvals = [];
  memberships = [];
  snapshots = record { id = codes "s"; content_hash = codes "c"; workflows = base_entry ∷ [] } ∷ [];
  bindings = [];
  definitions = [];
  environments = [];
  overlays = [];
  results = [];
  deliveries = [];
}

abbrev live : PreflightPort
live e = record { ready = true; checks = [] }

abbrev executed_op : Operation
executed_op = record approved_op {
  state = executing;
  state_version = 4;
  handle_burned_at = some 10;
  updated_at = 10;
}

abbrev run : Session Db Operation
run = execute_operation ctx live false (codes "e") (codes "op") (codes "op") (codes "ana")

abbrev executed_db : Db
executed_db = session_scope run db

run_succeeds : run db ≡ ok executed_op executed_db
unfolding execute_operation ◌>>=◌ raise_if get_owned_operation_row get_operation_row gets or_raise
    get_operation overdue_expiry_transition pure require_approved fingerprint_arguments
    canonicalize_arguments utf8 require_active_snapshot find_entry verify_live_before_execute
    burn_handle apply_lazy_expiry check_executable start_execution write_audit apply_transition
    compare_and_set_state count_in_state moved update_where apply_and_audit attempt
    attempt_with_retry on_optimistic_lock validate_transition session_scope write compute_entry_hash
    get_last_hash text_eq
run_succeeds = refl

execute_operation_lem_example :
    (codes "op" ≡ codes "op")
    × ((row : Operation) × (get_operation (codes "op") db ≡ some row)
        × MayActOn db false (codes "ana") (codes "execute_operation") row
        × ((false ≡ true) ⊎ (row.environment ≡ codes "e"))
        × MayExecute ctx live db row
        × (executed_op ≡ moved ctx row.state_version executing no_updates (burned_row ctx row))
        × (get_operation (codes "op") executed_db ≡ some executed_op))
execute_operation_lem_example =
    execute_operation_lem ctx db (refl, tt) live false (codes "e") (codes "op") (codes "op")
      (codes "ana") executed_op executed_db run_succeeds

approved_op_may : MayExecute ctx live db approved_op
unfolding fingerprint_arguments canonicalize_arguments utf8 find_entry count_in_state text_eq
approved_op_may = record {
  is_unburned = refl;
  is_approved = refl;
  in_time = refl;
  unaltered = refl;
  snapshot = record { id = codes "s"; content_hash = codes "c"; workflows = base_entry ∷ [] };
  entry = base_entry;
  active = refl;
  registered = refl;
  undrifted = refl;
  ready = refl;
  below_limit = omega arith;
}

execute_operation_progress_example :
    (c : Db) × (execute_operation ctx live false
        (codes "e")
        (codes "op")
        (codes "op")
        (codes "ana")
        db
      ≡ ok (moved ctx 3 executing no_updates (burned_row ctx approved_op)) c)
unfolding get_operation text_eq
execute_operation_progress_example =
    execute_operation_progress ctx db (refl, tt) live false (codes "e") (codes "op") (codes "ana")
      approved_op refl refl (inr refl) approved_op_may

abbrev calls : List (ℕ × Call)
calls =
    (11, execute live false (codes "e") (codes "op") (codes "op") (codes "ana"))
    ∷ (12, cancel false (codes "op") (codes "ana") none)
    ∷ []

execute_operation_once_example : ¬ (
    execute_operation ctx live false
      (codes "e")
      (codes "op")
      (codes "op")
      (codes "ana")
      (after ctx calls executed_db)
    ≡ ok executed_op executed_db)
execute_operation_once_example =
    execute_operation_once ctx db executed_db live false (codes "e") (codes "op") (codes "op")
      (codes "ana") executed_op (refl, tt) run_succeeds calls ctx live false (codes "e")
      (codes "op") (codes "ana") executed_op executed_db

after_lem_example :
    (o' : Operation) × (get_operation (codes "op") (after ctx calls db) ≡ some o')
    × (o'.identity ≡ approved_op.identity)
    × (approved_op.state ⟶* o'.state)
    × (is_some approved_op.handle_burned_at ≡ true
        → o'.handle_burned_at ≡ approved_op.handle_burned_at)
unfolding get_operation n8n_operator.Base.text_eq
after_lem_example = after_lem ctx calls db (codes "op") approved_op (refl, tt) refl

abbrev rejected_op : Operation
rejected_op = record approved_op { state = rejected }

abbrev rejected_db : Db
rejected_db = record db { operations = rejected_op ∷ [] }

after_terminal_example :
    (o' : Operation) × (get_operation (codes "op") (after ctx calls rejected_db) ≡ some o')
    × (o'.state ≡ rejected_op.state)
unfolding get_operation is_terminal n8n_operator.Base.text_eq
after_terminal_example =
    after_terminal ctx calls rejected_db (codes "op") rejected_op (refl, tt) refl refl

abbrev logged_db : Db
logged_db = record db { audit_log = two_entries }

after-verify_chain_example :
    verify_chain plain (after ctx calls logged_db).audit_log ≡ verify_chain plain two_entries
after-verify_chain_example = after-verify_chain ctx calls logged_db (refl, tt)

-- A row that was read as approved, while the table's row has been canceled at a later version.
abbrev canceled_op : Operation
canceled_op = record approved_op { state = canceled; state_version = 4 }

abbrev canceled_db : Db
canceled_db = record db { operations = canceled_op ∷ [] }
