-- ===== src/Service/Store/Rows.antt =====
-- The rows, with the columns that the use cases read: src/n8n_operator/storage/models.py, and the
-- registry entries of src/n8n_operator/registry/schema.py. An instant is a natural number.
use n8n_operator.Base.{ℕ, Bool, Option, List, Text}
use n8n_operator.Json.{Fields, Json}
use n8n_operator.StateMachine.{State, TransitionId}
use n8n_operator.Audit.Chain.{AuditEntry, Digest}
use n8n_operator.Authorization.Evaluate.{Membership}

-- `approval_policy_snapshot`
pub record PolicySnapshot : Type 0 where
  pub quorum_count : ℕ
  pub eligible_approvers : List Text

-- The columns of `operations` that no statement of the program updates.
pub record Identity : Type 0 where
  pub id : Text
  pub principal_id : Text
  pub environment : Text
  pub environment_id : Option Text
  pub organization_id : Option Text
  pub snapshot_id : Text
  pub workflow_id : Text
  pub definition_hash : Text
  pub arguments : Json
  pub argument_fingerprint : Text
  pub argument_bytes : ℕ
  pub idempotency_key : Option Text
  pub parent_operation_id : Option Text
  pub created_at : ℕ

pub record Operation : Type 0 where
  pub identity : Identity
  pub open identity use *
  pub state : State
  pub state_version : ℕ
  pub handle_burned_at : Option ℕ
  pub approval_expires_at : Option ℕ
  pub execution_deadline : Option ℕ
  pub approval_policy_snapshot : Option PolicySnapshot
  pub n8n_execution_id : Option Text
  pub updated_at : ℕ

pub record OperationEvent : Type 0 where
  pub operation_id : Text
  pub from_state : Option State
  pub to_state : State
  pub transition : TransitionId
  pub actor : Text
  pub detail : Json
  pub occurred_at : ℕ

pub data DecisionKind : Type 0 where
  approved rejected : DecisionKind

pub record Approval : Type 0 where
  pub id : Text
  pub operation_id : Text
  pub token_hash : Text
  pub binding_hash : Text
  pub assigned_to : Option Text
  pub issued_at : ℕ
  pub expires_at : ℕ
  pub decided_at : Option ℕ
  pub decision : Option DecisionKind
  pub decided_by : Option Text
  pub client_fingerprint : Option Text

-- `Limits`, `Output` and `WorkflowEntry` of a resolved registry document.
pub record Limits : Type 0 where
  pub timeout_seconds : Option ℕ
  pub approval_ttl_seconds : Option ℕ
  pub execution_ttl_seconds : Option ℕ
  pub max_concurrent : ℕ
  pub rate_limit_per_minute : Option ℕ
  pub max_argument_bytes : Option ℕ
  pub quorum_count : ℕ

pub record Output : Type 0 where
  pub redact : List Text
  pub max_bytes : ℕ
  pub include_node_trace : Bool

pub data Risk : Type 0 where
  low medium high : Risk

pub data SideEffects : Type 0 where
  read_only external_write irreversible : SideEffects

pub data TriggerMethod : Type 0 where
  post_method get_method : TriggerMethod

pub data TriggerAuth : Type 0 where
  no_auth header_auth basic_auth : TriggerAuth

pub record WorkflowEntry : Type 0 where
  pub id : Text
  pub n8n_workflow_id : Text
  pub title : Text
  pub description : Text
  pub owner : Text
  pub version : ℕ
  pub definition_hash : Text
  pub risk : Risk
  pub side_effects : SideEffects
  -- `approval == "none"`
  pub is_unattended : Bool
  pub trigger_method : TriggerMethod
  pub trigger_path : Text
  pub trigger_auth : TriggerAuth
  pub trigger_secret_ref : Option Text
  -- `correlation == "response_envelope"`
  pub has_correlation : Bool
  pub input_schema : Json
  pub limits : Limits
  pub output : Output
  pub tags : List Text
  pub enabled : Bool

pub record RegistrySnapshot : Type 0 where
  pub id : Text
  pub content_hash : Text
  pub workflows : List WorkflowEntry

pub record WorkflowBinding : Type 0 where
  pub id : Text
  pub snapshot_id : Text
  pub workflow_id : Text
  pub n8n_workflow_id : Text
  pub definition_hash : Text
  pub side_effects : SideEffects
  -- `approval_policy == "none"`
  pub is_unattended : Bool
  pub input_schema : Json

pub record DefinitionSnapshot : Type 0 where
  pub workflow_id : Text
  pub definition_hash : Text
  pub canonical_definition : Fields

pub record Environment : Type 0 where
  pub id : Text
  pub organization_id : Text
  pub archived_at : Option ℕ

-- A row of `workflow_environment_overlays`; `limits_override` has a value for each key it sets.
pub record LimitsOverride : Type 0 where
  pub timeout_seconds : Option ℕ
  pub approval_ttl_seconds : Option ℕ
  pub execution_ttl_seconds : Option ℕ
  pub max_concurrent : Option ℕ
  pub rate_limit_per_minute : Option ℕ
  pub max_argument_bytes : Option ℕ
  pub quorum_count : Option ℕ

pub record Overlay : Type 0 where
  pub workflow_id : Text
  pub environment_id : Text
  pub n8n_workflow_id : Option Text
  pub definition_hash : Option Text
  pub trigger_path : Option Text
  pub trigger_secret_ref : Option Text
  -- `approval_override`, which can only be "required"
  pub requires_approval : Bool
  pub limits_override : LimitsOverride

pub data OutcomeKind : Type 0 where
  success error indeterminate : OutcomeKind

pub record ExecutionResult : Type 0 where
  pub operation_id : Text
  pub n8n_execution_id : Option Text
  pub status : OutcomeKind
  pub started_at : Option ℕ
  pub finished_at : Option ℕ
  pub redacted_payload : Json
  pub node_trace : Option Json
  pub error : Option Json

pub data DeliveryStatus : Type 0 where
  pending delivered failed : DeliveryStatus

pub record NotificationDelivery : Type 0 where
  pub id : Text
  pub idempotency_key : Text
  pub subject_type : Text
  pub subject_id : Text
  pub principal_id : Option Text
  pub event_type : Text
  pub attempts : ℕ
  pub status : DeliveryStatus
  pub last_attempted_at : Option ℕ
  pub delivered_at : Option ℕ

-- The database. The rows of `registry_snapshots` stand in the order of loading.
pub record Db : Type 0 where
  pub operations : List Operation
  pub events : List OperationEvent
  pub audit_log : List AuditEntry
  pub approvals : List Approval
  pub memberships : List Membership
  pub snapshots : List RegistrySnapshot
  pub bindings : List WorkflowBinding
  pub definitions : List DefinitionSnapshot
  pub environments : List Environment
  pub overlays : List Overlay
  pub results : List ExecutionResult
  pub deliveries : List NotificationDelivery

-- What a use case takes from outside: the time of the call, the digests, and the values that
-- `new_ulid` and `secrets.token_urlsafe` give to the nth row that asks for one.
pub record Context : Type 0 where
  pub now : ℕ
  pub digest : Digest
  pub new_ulid : ℕ → Text
  pub token_urlsafe : ℕ → Text
  -- Whether, at an instant, the session still holds the object of a row that it has read.
  pub holds : ℕ → Operation → Bool
