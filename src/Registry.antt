-- ===== src/Registry.antt =====
-- Registry documents and their load-time rules: src/n8n_operator/registry/schema.py and loader.py. The
-- documents are those that YAML and pydantic have accepted.
use n8n_operator.Service.Store.Rows.{WorkflowEntry}
pub mod Patterns
pub mod Rules
pub mod Overlays
pub mod Sound
pub mod Strict
use n8n_operator.Base.{false, ◌∷◌, true, map, [], Text, List, Bool, Option, ℕ, none, some}

-- `approval`
pub data ApprovalPolicy : Type 0 where
  no_approval approval_required : ApprovalPolicy

-- `RegistryDefaults`
pub record RegistryDefaults : Type 0 where
  pub approval : ApprovalPolicy
  pub timeout_seconds : ℕ
  pub approval_ttl_seconds : ℕ
  pub execution_ttl_seconds : ℕ

-- An entry as it is written: its approval may be left to the defaults. The other fields are those of
-- `entry`, whose own `is_unattended` is not read.
pub record DeclaredEntry : Type 0 where
  pub approval : Option ApprovalPolicy
  pub entry : WorkflowEntry

-- `RegistryDocument`
pub record RegistryDocument : Type 0 where
  pub api_version : Text
  pub defaults : RegistryDefaults
  pub workflows : List DeclaredEntry

abbrev pub or_default {ℓ} : {A : Type ℓ} → Option A → A → A
or_default none d = d
or_default (some a) d = a

abbrev is_none_policy : ApprovalPolicy → Bool
is_none_policy no_approval = true
is_none_policy approval_required = false

-- `resolve_workflow_entry`
unfoldable pub resolve_workflow_entry : RegistryDefaults → DeclaredEntry → WorkflowEntry
resolve_workflow_entry defaults d =
    let limits = d.entry.limits in
    record d.entry {
      is_unattended = is_none_policy (or_default d.approval defaults.approval);
      limits = record limits {
        timeout_seconds = some (or_default limits.timeout_seconds defaults.timeout_seconds);
        approval_ttl_seconds =
            some (or_default limits.approval_ttl_seconds defaults.approval_ttl_seconds);
        execution_ttl_seconds =
            some (or_default limits.execution_ttl_seconds defaults.execution_ttl_seconds);
      };
    }

-- `resolve_document`
unfoldable pub resolve_document : RegistryDocument → List WorkflowEntry
unfolding resolve_workflow_entry
resolve_document document = map (resolve_workflow_entry document.defaults) document.workflows

pub data Rule : Type 0 where
  r1 r2 r3 r4 r5 r6 r7 r8 r9 r10 r11 r12 r13 r14 r15 : Rule

-- `RuleViolation`, without its message.
pub record RuleViolation : Type 0 where
  pub rule : Rule
  pub workflow_id : Option Text

-- A violation where the test fails.
abbrev pub unless : Bool → Rule → Text → List RuleViolation
unless true rule workflow_id = []
unless false rule workflow_id = record { rule = rule; workflow_id = some workflow_id } ∷ []
