-- ===== src/Service/Retry.antt =====
-- `prepare_operation` and `retry_operation` of src/n8n_operator/core/service.py: what each of them
-- resolves before `_prepare_or_retry`.
use n8n_operator.Base.{ℕ, zero, suc, Bool, true, false, not, Option, none, some, Text, codes}
use n8n_operator.Json.{Json}
use n8n_operator.StateMachine.{State, failed, unknown, blocked, expired, rejected}
use n8n_operator.Service.Outcome.{
  Session, ◌>>=◌, ◌>>◌, pure, raise, raise_if, gets, or_raise, assertion, retry_not_applicable,
}
use n8n_operator.Service.Store.Rows.{Operation, Db, Context}
use n8n_operator.Service.Store.Operations.{get_operation}
use n8n_operator.Service.Transition.{apply_lazy_expiry}
use n8n_operator.Service.Registry.{require_active_snapshot, require_enabled_entry}
use n8n_operator.Service.Access.{apply_environment, get_owned_operation_row}
use n8n_operator.Service.Prepare.{Ports, Prepared, prepare_or_retry}

-- `environment_value` of `prepare_operation`
abbrev pub environment_or : Option Text → Option Text → Text
environment_or (some resolved) environment = resolved
environment_or none (some environment) = environment
environment_or none none = codes "default"

unfoldable pub prepare_operation :
    Context
    → Ports
    → (Db → Db)
    → Bool
    → Text
    → Option Text
    → Text
    → Json
    → ℕ
    → Option Text
    → Option Text
    → Session Db Prepared
prepare_operation ctx ports meanwhile enable_v2 principal environment workflow_id arguments
      server_max_argument_bytes idempotency_key reason =
    do
      start ← gets (λ db. db)
      snapshot ← require_active_snapshot
      base ← require_enabled_entry snapshot workflow_id
      (environment_id, entry) ←
          apply_environment enable_v2 principal environment workflow_id base
            (codes "prepare_operation") true
      prepare_or_retry ctx ports meanwhile start (record {
        principal_id = principal;
        workflow_id = workflow_id;
        arguments = arguments;
        environment_value = environment_or environment_id environment;
        resolved_environment_id = environment_id;
        entry = entry;
        snapshot_id = snapshot.id;
        server_max_argument_bytes = server_max_argument_bytes;
        idempotency_key = idempotency_key;
        reason = reason;
        enable_v2 = enable_v2;
        parent_operation_id = none;
      })

abbrev pub is_retryable : State → Bool
is_retryable failed = true
is_retryable unknown = true
is_retryable blocked = true
is_retryable expired = true
is_retryable rejected = true
is_retryable _ = false

-- `MAX_RETRY_CHAIN_DEPTH`
abbrev pub max_retry_chain_depth : ℕ
max_retry_chain_depth = 10

-- The walk up the ancestors, with the rounds that are left before the depth is exceeded.
unfoldable pub check_chain : ℕ → Option Text → Session Db (Unit {0})
check_chain rounds none = pure tt
check_chain zero (some ancestor_id) = raise retry_not_applicable
check_chain (suc zero) (some ancestor_id) = raise retry_not_applicable
check_chain (suc (suc rounds)) (some ancestor_id) = gets (get_operation ancestor_id) >>= λ found.
    or_raise found assertion >>= λ ancestor. check_chain (suc rounds) ancestor.parent_operation_id

abbrev pub parent_environment : Option Text → Operation → Text
parent_environment (some resolved) parent = resolved
parent_environment none parent = parent.environment

unfoldable pub retry_parent :
    Context
    → Ports
    → (Db → Db)
    → Db
    → Bool
    → Text
    → ℕ
    → Option Text
    → Option Text
    → Operation
    → Session Db Prepared
retry_parent ctx ports meanwhile start enable_v2 principal server_max_argument_bytes idempotency_key
      reason parent =
    do
      snapshot ← require_active_snapshot
      base ← require_enabled_entry snapshot parent.workflow_id
      (environment_id, entry) ←
          apply_environment enable_v2 principal parent.environment_id parent.workflow_id base
            (codes "retry_operation") true
      prepare_or_retry ctx ports meanwhile start (record {
        principal_id = principal;
        workflow_id = parent.workflow_id;
        arguments = parent.arguments;
        environment_value = parent_environment environment_id parent;
        resolved_environment_id = environment_id;
        entry = entry;
        snapshot_id = snapshot.id;
        server_max_argument_bytes = server_max_argument_bytes;
        idempotency_key = idempotency_key;
        reason = reason;
        enable_v2 = enable_v2;
        parent_operation_id = some parent.id;
      })

unfoldable pub retry_operation :
    Context
    → Ports
    → (Db → Db)
    → Bool
    → Text
    → Text
    → ℕ
    → Option Text
    → Option Text
    → Session Db Prepared
unfolding retry_parent
retry_operation ctx ports meanwhile enable_v2 operation_id principal server_max_argument_bytes
      idempotency_key reason =
    do
      start ← gets (λ db. db)
      row ← get_owned_operation_row ctx enable_v2 operation_id principal (codes "retry_operation")
      parent ← apply_lazy_expiry ctx row
      raise_if (not (is_retryable parent.state)) retry_not_applicable
      check_chain max_retry_chain_depth parent.parent_operation_id
      retry_parent ctx ports meanwhile start enable_v2 principal server_max_argument_bytes
          idempotency_key reason parent
