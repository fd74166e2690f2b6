-- ===== src/Examples/Preparing.antt =====
-- Ana prepares an operation of a workflow that needs no approval.
use n8n_operator.Json.Nfc.{canonicalize_arguments}
use n8n_operator.StateMachine.Legal.{is_executed, ◌⟶*◌}
use n8n_operator.Service.Execute.{fingerprint_arguments}
use n8n_operator.Service.Validation.{validate_arguments, get_field, fields_of, required_fields}
use n8n_operator.Audit.Writer.{write}
use n8n_operator.Service.Store.Logs.{append_event, write_audit}
use n8n_operator.Service.Transition.{
  record_creation, apply_and_audit, attempt_with_retry, on_optimistic_lock, attempt,
}
use n8n_operator.Service.Idempotency.{check_argument_size, resolve_idempotency}
use n8n_operator.Service.Access.{apply_environment}
use n8n_operator.Service.Registry.{
  require_active_snapshot, require_enabled_entry, find_entry, resolved_ttl,
}
use n8n_operator.Service.Retry.{prepare_operation}
use n8n_operator.Service.Outcome.{session_scope, ◌>>=◌, gets, or_raise, raise_if, pure}
use n8n_operator.StateMachine.{preparing, approved, validate_transition}
use n8n_operator.Json.{end, obj, utf8}
use n8n_operator.Examples.Access.{base_entry}
use n8n_operator.Service.Store.Operations.{
  get_operation, find_by_idempotency, create_operation, violates_unique, count_recent,
  apply_transition, compare_and_set_state, update_where, moved,
}
use n8n_operator.Base.{refl, some, ◌≡◌, false, ◌∷◌, ◌++◌, ℕ, codes, none, [], true, List, text_eq}
use n8n_operator.Examples.Operations.{ctx, db}
use n8n_operator.Service.Prepare.{
  Ports, prepare_or_retry, refusal, check_rate, deny, find_replay, resolved, answer_existing,
  create_and_settle, organization_for, insert_or_replay, insert, on_integrity_error,
  settle_inserted, settle, answer_errors, route_operation, approve_or_ask, auto_approve,
}
use n8n_operator.Service.Sessions.{prepare, Call}
use n8n_operator.Service.Calls.{after, after_created}
use n8n_operator.Service.Store.Rows.{approved, Operation, WorkflowEntry, Db}

abbrev pub unattended_entry : WorkflowEntry
unattended_entry = record base_entry { is_unattended = true }

abbrev pub empty_db : Db
empty_db = record db {
  operations = [];
  snapshots =
      record { id = codes "s"; content_hash = codes "c"; workflows = unattended_entry ∷ [] } ∷ [];
}

abbrev pub ports : Ports
ports = record {
  preflight = λ e. record { ready = true; checks = [] };
  schema = record { iter_errors = λ s v. []; repr = λ t. t; upper = λ t. t };
  notification_sink = none;
}

abbrev pub calls : List (ℕ × Call)
calls =
    (
      11,
      prepare ports false (codes "ana") none (codes "close") (obj end) 1000 (some (codes "k")) none,
    )
    ∷ []

abbrev pub prepared_op : Operation
prepared_op = record {
  identity = record {
    id = codes "op_" ++ 0 ∷ [];
    principal_id = codes "ana";
    environment = codes "default";
    environment_id = none;
    organization_id = none;
    snapshot_id = codes "s";
    workflow_id = codes "close";
    definition_hash = codes "h";
    arguments = obj end;
    argument_fingerprint = codes "sha256:{}";
    argument_bytes = 2;
    idempotency_key = some (codes "k");
    parent_operation_id = none;
    created_at = 11;
  };
  state = approved;
  state_version = 2;
  handle_burned_at = none;
  approval_expires_at = none;
  execution_deadline = some 71;
  approval_policy_snapshot = none;
  n8n_execution_id = none;
  updated_at = 11;
}

found_prepared : get_operation (codes "op_" ++ 0 ∷ []) (after ctx calls empty_db) ≡ some prepared_op
unfolding get_operation after session_scope ◌>>=◌ prepare_operation require_active_snapshot gets
    or_raise require_enabled_entry find_entry text_eq raise_if pure apply_environment
    prepare_or_retry check_argument_size canonicalize_arguments utf8 refusal check_rate deny
    find_replay resolved answer_existing create_and_settle organization_for insert_or_replay insert
    on_integrity_error settle_inserted settle answer_errors route_operation approve_or_ask
    auto_approve find_by_idempotency create_operation violates_unique count_recent
    resolve_idempotency record_creation append_event write_audit write validate_arguments get_field
    fields_of required_fields resolved_ttl apply_and_audit attempt_with_retry on_optimistic_lock
    attempt validate_transition apply_transition compare_and_set_state update_where moved
    fingerprint_arguments
found_prepared = refl

after_created_example :
    (preparing ⟶* prepared_op.state)
    × (is_executed prepared_op.state ≡ true
        → (preparing ⟶* approved) × (approved ⟶* prepared_op.state))
after_created_example =
    after_created ctx calls empty_db (codes "op_" ++ 0 ∷ []) prepared_op refl found_prepared
