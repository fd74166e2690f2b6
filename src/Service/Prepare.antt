-- ===== src/Service/Prepare.antt =====
-- `prepare_operation`, `_prepare_or_retry` and `retry_operation` of
-- src/n8n_operator/core/service.py.
use n8n_operator.Json.Nfc.{canonicalize_arguments}
pub mod Refusals
pub mod Replay
use n8n_operator.Base.{
  ℕ, suc, ◌+◌, ◌-◌, Bool, true, false, not, Option, none, some, List, [], ◌∷◌, ◌++◌, length, leb,
  Text, codes, if◌then◌else◌,
}
use n8n_operator.Json.{Json, Fields, Items, obj, str, arr, end, field, num, nil, cons, null}
use n8n_operator.StateMachine.{preparing, t02, t03, t04, t05}
use n8n_operator.Service.Outcome.{
  Session, ok, err, ◌>>=◌, ◌>>◌, pure, raise, commit_and_raise, gets, or_raise, OperatorError,
  rate_limited, integrity_error, assertion,
}
use n8n_operator.Service.Store.Rows.{
  Operation, Identity, WorkflowEntry, PolicySnapshot, Db, Context,
}
use n8n_operator.Service.Store.Operations.{
  create_operation, find_by_idempotency, count_recent, no_updates,
}
use n8n_operator.Service.Store.Approvals.{create_approval}
use n8n_operator.Service.Store.Logs.{write_audit}
use n8n_operator.Service.Transition.{apply_and_audit, apply_lazy_expiry, record_creation}
use n8n_operator.Service.Registry.{resolved_ttl}
use n8n_operator.Service.Access.{organization_of}
use n8n_operator.Service.Handles.{decimal, hash_approval_token, compute_approval_binding}
use n8n_operator.Service.Execute.{fingerprint_arguments, reason_detail}
use n8n_operator.Service.Idempotency.{
  check_argument_size, resolve_idempotency, IdempotencyResolution, new, replay,
}
use n8n_operator.Service.Ports.{
  PreflightPort, PreflightCheck, PreflightResult, NotificationSink, JsonSchema,
}
use n8n_operator.Service.Validation.{validate_arguments, ArgumentError, error_items}
use n8n_operator.Service.Eligible.{compute_eligible_approvers}
use n8n_operator.Service.Notify.{alert_on_drift}

-- The ports of a call.
pub record Ports : Type 0 where
  pub preflight : PreflightPort
  pub schema : JsonSchema
  pub notification_sink : Option NotificationSink

-- The arguments of `_prepare_or_retry`.
pub record Request : Type 0 where
  pub principal_id : Text
  pub workflow_id : Text
  pub arguments : Json
  pub environment_value : Text
  pub resolved_environment_id : Option Text
  pub entry : WorkflowEntry
  pub snapshot_id : Text
  pub server_max_argument_bytes : ℕ
  pub idempotency_key : Option Text
  pub reason : Option Text
  pub enable_v2 : Bool
  pub parent_operation_id : Option Text

-- `(operation, idempotent_replay, approval_token)`
pub record Prepared : Type 0 where
  pub operation : Operation
  pub idempotent_replay : Bool
  pub approval_token : Option Text

abbrev pub system : Text
system = codes "system"

-- `entry.limits.max_argument_bytes or server_max_argument_bytes`
abbrev pub effective_limit : Request → ℕ
effective_limit r = elim r.entry.limits.max_argument_bytes [
  | some (suc n) ↦ suc n
  | _ ↦ r.server_max_argument_bytes
]

unfoldable pub check_rate : Context → Request → Db → Option (OperatorError × Fields)
check_rate ctx r db = elim r.entry.limits.rate_limit_per_minute [
  | none ↦ none
  | some limit ↦
      let recent = count_recent r.workflow_id (ctx.now - 60) db in
      if leb limit recent
      then some (
        rate_limited,
        field (codes "limit_per_minute") (num (decimal limit))
            (field (codes "recent_count") (num (decimal recent)) end),
      )
      else none
]

-- What the two checks of the `try` raise.
unfoldable pub refusal : Context → Request → Db → Option (OperatorError × Fields)
unfolding check_rate
refusal ctx r db =
    elim (check_argument_size (canonicalize_arguments ctx.digest.nfc r.arguments)
      (effective_limit r)) [ some e ↦ some e | none ↦ check_rate ctx r db ]

abbrev error_code : OperatorError → Text
error_code rate_limited = codes "RATE_LIMITED"
error_code _ = codes "ARGUMENTS_TOO_LARGE"

unfoldable pub deny : Context → Request → Option (OperatorError × Fields) → Session Db (Unit {0})
deny ctx r none = pure tt
deny ctx r (some (e, details)) = do
  write_audit ctx r.principal_id (codes "operation.prepare_denied") (codes "workflow") r.workflow_id
      (codes "denied") (obj (field (codes "code") (str (error_code e)) details))
  commit_and_raise e

-- `f"retry:{parent_operation_id}:{idempotency_key}"` for a retry that has a key
abbrev pub namespaced_key : Option Text → Option Text → Option Text
namespaced_key (some parent) (some key) = some (codes "retry:" ++ (parent ++ (b':' ∷ key)))
namespaced_key _ key = key

abbrev pub request_key : Request → Option Text
request_key r = namespaced_key r.parent_operation_id r.idempotency_key

abbrev pub request_fingerprint : Context → Request → Text
request_fingerprint ctx r =
    fingerprint_arguments ctx.digest (canonicalize_arguments ctx.digest.nfc r.arguments)

abbrev pub find_existing : Request → Text → Db → Option Operation
find_existing r key db = find_by_idempotency r.principal_id r.environment_value r.workflow_id key db

abbrev pub existing_fingerprint : Option Operation → Option Text
existing_fingerprint none = none
existing_fingerprint (some o) = some o.argument_fingerprint

-- A replay returns the existing operation, with its expiry applied.
unfoldable pub replayed : Context → Option Operation → Session Db (Option Operation)
replayed ctx existing = do
  o ← or_raise existing assertion
  refreshed ← apply_lazy_expiry ctx o
  pure (some refreshed)

unfoldable pub resolved :
    Context → Option Operation → IdempotencyResolution → Session Db (Option Operation)
unfolding replayed
resolved ctx existing new = pure none
resolved ctx existing replay = replayed ctx existing

unfoldable pub find_replay : Context → Request → Option Text → Session Db (Option Operation)
unfolding resolved
find_replay ctx r none = pure none
find_replay ctx r (some key) = do
  existing ← gets (find_existing r key)
  resolution ← resolve_idempotency (existing_fingerprint existing) (request_fingerprint ctx r)
  resolved ctx existing resolution

unfoldable pub organization_for : Request → Session Db (Option Text)
organization_for r = if r.enable_v2 then organization_of r.resolved_environment_id else pure none

-- `mint_operation_handle`
abbrev pub mint_operation_handle : Context → Db → Text
mint_operation_handle ctx db = codes "op_" ++ ctx.new_ulid (length db.operations)

abbrev pub new_identity : Context → Request → Option Text → Text → Identity
new_identity ctx r organization handle = record {
  id = handle;
  principal_id = r.principal_id;
  environment = r.environment_value;
  environment_id = r.resolved_environment_id;
  organization_id = organization;
  snapshot_id = r.snapshot_id;
  workflow_id = r.workflow_id;
  definition_hash = r.entry.definition_hash;
  arguments = r.arguments;
  argument_fingerprint = request_fingerprint ctx r;
  argument_bytes = length (canonicalize_arguments ctx.digest.nfc r.arguments);
  idempotency_key = request_key r;
  parent_operation_id = r.parent_operation_id;
  created_at = ctx.now;
}

-- `except IntegrityError`, whose handler begins with `session.rollback()`: it runs on the database
-- without anything that the transaction has written.
unfoldable pub on_integrity_error : {A : Type 0} → Db → Session Db A → Session Db A → Session Db A
on_integrity_error rolled_back m handler db = elim (m db) [
  | ok a db' ↦ ok a db'
  | err integrity_error kept ↦ handler rolled_back
  | err e kept ↦ err e kept
]

-- The operation, and whether it is one that another call with the same key has created meanwhile.
abbrev pub Inserted : Type 0
Inserted = Operation × Bool

unfoldable pub insert : Context → Request → Option Text → Session Db Inserted
insert ctx r organization = do
  handle ← gets (mint_operation_handle ctx)
  operation ← create_operation ctx (new_identity ctx r organization handle) preparing
  pure (operation, false)

unfoldable pub lost_race : Context → Request → Option Text → Session Db Inserted
lost_race ctx r none = raise integrity_error
lost_race ctx r (some key) = do
  existing ← gets (find_existing r key)
  o ← or_raise existing assertion
  refreshed ← apply_lazy_expiry ctx o
  pure (refreshed, true)

-- `meanwhile` is what other sessions commit between the lookup of the key and the insertion, and
-- `start` the database where the transaction began.
unfoldable pub insert_or_replay :
    Context → (Db → Db) → Db → Request → Option Text → Session Db Inserted
unfolding insert lost_race
insert_or_replay ctx meanwhile start r organization db =
    on_integrity_error (meanwhile start) (insert ctx r organization)
      (lost_race ctx r (request_key r)) (meanwhile db)

-- `c.model_dump(mode="json")`
abbrev opt_str : Option Text → Json
opt_str none = null
opt_str (some t) = str t

abbrev opt_json : Option Json → Json
opt_json none = null
opt_json (some j) = j

check_items : List PreflightCheck → Items
check_items [] = nil
check_items (c ∷ cs) =
    cons
      (obj (
        field (codes "check") (str c.check) (
          field (codes "status") (str c.status) (
            field (codes "code") (opt_str c.code)
              (field (codes "detail") (opt_json c.detail) end)))))
      (check_items cs)

pub checks_detail : PreflightResult → Json
unfolding check_items
checks_detail result = obj (field (codes "checks") (arr (check_items result.checks)) end)

unfoldable pub auto_approve : Context → Request → Operation → Json → Session Db Prepared
auto_approve ctx r operation detail = do
  ttl ← resolved_ttl r.entry.limits.execution_ttl_seconds
  updated ←
      apply_and_audit ctx operation t05 system detail
        (record no_updates { execution_deadline = some (ctx.now + ttl) })
  pure (record { operation = updated; idempotent_replay = false; approval_token = none })

unfoldable pub frozen_policy : Request → Option Text → Session Db (Option PolicySnapshot)
frozen_policy r organization = do
  organization_id ← or_raise organization assertion
  environment_id ← or_raise r.resolved_environment_id assertion
  approvers ←
      gets (compute_eligible_approvers organization_id r.workflow_id environment_id r.principal_id)
  pure
      (some (record { quorum_count = r.entry.limits.quorum_count; eligible_approvers = approvers }))

-- The frozen policy of an operation that waits for approval in v2.
unfoldable pub policy_for : Request → Option Text → Session Db (Option PolicySnapshot)
policy_for r organization = if not r.enable_v2 then pure none else frozen_policy r organization

unfoldable pub mint_shared_token : Context → Request → Text → ℕ → Session Db (Option Text)
mint_shared_token ctx r operation_id approval_expires_at = do
  minted ← gets (λ db. ctx.token_urlsafe (length db.approvals))
  create_approval ctx operation_id (hash_approval_token ctx.digest minted)
      (compute_approval_binding ctx.digest operation_id r.principal_id (request_fingerprint ctx r)
        r.snapshot_id r.entry.definition_hash)
      approval_expires_at none
  pure (some minted)

-- The shared token of an operation that waits for approval in v1.
unfoldable pub shared_token : Context → Request → Text → ℕ → Session Db (Option Text)
shared_token ctx r operation_id approval_expires_at =
    if r.enable_v2 then pure none else mint_shared_token ctx r operation_id approval_expires_at

unfoldable pub require_approval :
    Context → Request → Option Text → Operation → Json → Session Db Prepared
unfolding policy_for shared_token
require_approval ctx r organization operation detail = do
  ttl ← resolved_ttl r.entry.limits.approval_ttl_seconds
  policy ← policy_for r organization
  updated ← apply_and_audit ctx operation t04 system detail (record no_updates {
    approval_expires_at = some (ctx.now + ttl);
    approval_policy_snapshot = policy;
  })
  token ← shared_token ctx r operation.id (ctx.now + ttl)
  pure (record { operation = updated; idempotent_replay = false; approval_token = token })

unfoldable pub block_operation :
    Context → Ports → Request → Operation → PreflightResult → Session Db Prepared
block_operation ctx ports r operation result = do
  updated ← apply_and_audit ctx operation t03 system (checks_detail result) no_updates
  alert_on_drift ctx ports.notification_sink r.workflow_id result
  pure (record { operation = updated; idempotent_replay = false; approval_token = none })

unfoldable pub approve_or_ask :
    Context → Request → Option Text → Operation → Json → Session Db Prepared
unfolding auto_approve require_approval
approve_or_ask ctx r organization operation detail =
    if r.entry.is_unattended
    then auto_approve ctx r operation detail
    else require_approval ctx r organization operation detail

unfoldable pub route_operation :
    Context → Ports → Request → Option Text → Operation → Session Db Prepared
unfolding approve_or_ask block_operation
route_operation ctx ports r organization operation =
    let result = ports.preflight r.entry in
    if not result.ready
    then block_operation ctx ports r operation result
    else approve_or_ask ctx r organization operation (checks_detail result)

unfoldable pub reject_arguments : Context → Operation → List ArgumentError → Session Db Prepared
reject_arguments ctx operation errors = do
  updated ←
      apply_and_audit ctx operation t02 system
        (obj (field (codes "errors") (arr (error_items errors)) end)) no_updates
  pure (record { operation = updated; idempotent_replay = false; approval_token = none })

unfoldable pub answer_errors :
    Context → Ports → Request → Option Text → Operation → List ArgumentError → Session Db Prepared
unfolding route_operation reject_arguments
answer_errors ctx ports r organization operation [] =
    route_operation ctx ports r organization operation
answer_errors ctx ports r organization operation (e ∷ es) = reject_arguments ctx operation (e ∷ es)

-- What follows the creation of a row.
unfoldable pub settle : Context → Ports → Request → Option Text → Operation → Session Db Prepared
unfolding answer_errors
settle ctx ports r organization operation = do
  record_creation ctx operation r.principal_id (reason_detail r.reason)
  answer_errors ctx ports r organization operation
      (validate_arguments ports.schema r.entry.input_schema r.arguments)

unfoldable pub settle_inserted :
    Context → Ports → Request → Option Text → Inserted → Session Db Prepared
unfolding settle
settle_inserted ctx ports r organization (o, true) =
    pure (record { operation = o; idempotent_replay = true; approval_token = none })
settle_inserted ctx ports r organization (o, false) = settle ctx ports r organization o

unfoldable pub create_and_settle : Context → Ports → (Db → Db) → Db → Request → Session Db Prepared
unfolding settle_inserted insert_or_replay organization_for
create_and_settle ctx ports meanwhile start r = do
  organization ← organization_for r
  inserted ← insert_or_replay ctx meanwhile start r organization
  settle_inserted ctx ports r organization inserted

-- A replay, or a new operation.
unfoldable pub answer_existing :
    Context → Ports → (Db → Db) → Db → Request → Option Operation → Session Db Prepared
unfolding create_and_settle
answer_existing ctx ports meanwhile start r none = create_and_settle ctx ports meanwhile start r
answer_existing ctx ports meanwhile start r (some o) =
    pure (record { operation = o; idempotent_replay = true; approval_token = none })

-- `_prepare_or_retry`
unfoldable pub prepare_or_retry : Context → Ports → (Db → Db) → Db → Request → Session Db Prepared
unfolding answer_existing find_replay deny refusal
prepare_or_retry ctx ports meanwhile start r = do
  refused ← gets (refusal ctx r)
  deny ctx r refused
  existing ← find_replay ctx r (request_key r)
  answer_existing ctx ports meanwhile start r existing
