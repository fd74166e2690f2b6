-- ===== src/Service/Registry.antt =====
-- The registry entries that a use case works with: the lookups of
-- src/n8n_operator/core/service.py and `resolve_overlay` of src/n8n_operator/registry/schema.py.
use n8n_operator.Base.{
  ℕ, false, not, Option, none, some, List, [], ◌∷◌, first, Text, text_eq, if◌then◌else◌,
}
use n8n_operator.Service.Outcome.{
  Session, ◌>>=◌, ◌>>◌, pure, raise_if, gets, or_raise, workflow_not_found, workflow_disabled,
  registry_unavailable, assertion,
}
use n8n_operator.Service.Store.Rows.{
  WorkflowEntry, Limits, LimitsOverride, Overlay, RegistrySnapshot, Db,
}

-- `_find_entry`
unfoldable pub find_entry : List WorkflowEntry → Text → Option WorkflowEntry
find_entry workflows workflow_id = first (λ e. text_eq e.id workflow_id) workflows

abbrev pub last_snapshot : List RegistrySnapshot → Option RegistrySnapshot
last_snapshot [] = none
last_snapshot (s ∷ []) = some s
last_snapshot (s ∷ t ∷ rest) = last_snapshot (t ∷ rest)

-- `_require_active_snapshot`: the snapshot loaded last.
unfoldable pub require_active_snapshot : Session Db RegistrySnapshot
require_active_snapshot = do
  snapshot ← gets (λ db. last_snapshot db.snapshots)
  or_raise snapshot registry_unavailable

-- `_require_enabled_entry`
unfoldable pub require_enabled_entry : RegistrySnapshot → Text → Session Db WorkflowEntry
require_enabled_entry snapshot workflow_id = do
  entry ← or_raise (find_entry snapshot.workflows workflow_id) workflow_not_found
  raise_if (not entry.enabled) workflow_disabled
  pure entry

-- `_entry_for_operation`: the entry of the snapshot that the operation was prepared under.
unfoldable pub entry_for_operation : Text → Text → Session Db WorkflowEntry
entry_for_operation snapshot_id workflow_id = do
  found ← gets (λ db. first (λ s. text_eq s.id snapshot_id) db.snapshots)
  snapshot ← or_raise found assertion
  or_raise (find_entry snapshot.workflows workflow_id) assertion

-- `_resolved_ttl`
unfoldable pub resolved_ttl : Option ℕ → Session Db ℕ
resolved_ttl seconds = or_raise seconds assertion

abbrev pub or_base {ℓ} : {A : Type ℓ} → Option A → A → A
or_base none base = base
or_base (some a) base = a

abbrev pub or_base_option {ℓ} : {A : Type ℓ} → Option A → Option A → Option A
or_base_option none base = base
or_base_option (some a) base = some a

-- `limits.model_copy(update=...)`
override_limits : Limits → LimitsOverride → Limits
override_limits base o = record {
  timeout_seconds = or_base_option o.timeout_seconds base.timeout_seconds;
  approval_ttl_seconds = or_base_option o.approval_ttl_seconds base.approval_ttl_seconds;
  execution_ttl_seconds = or_base_option o.execution_ttl_seconds base.execution_ttl_seconds;
  max_concurrent = or_base o.max_concurrent base.max_concurrent;
  rate_limit_per_minute = or_base_option o.rate_limit_per_minute base.rate_limit_per_minute;
  max_argument_bytes = or_base_option o.max_argument_bytes base.max_argument_bytes;
  quorum_count = or_base o.quorum_count base.quorum_count;
}

unfoldable pub resolve_overlay : WorkflowEntry → Option Overlay → WorkflowEntry
unfolding override_limits
resolve_overlay base none = base
resolve_overlay base (some o) = record base {
  trigger_path = or_base o.trigger_path base.trigger_path;
  trigger_secret_ref = or_base_option o.trigger_secret_ref base.trigger_secret_ref;
  limits = override_limits base.limits o.limits_override;
  n8n_workflow_id = or_base o.n8n_workflow_id base.n8n_workflow_id;
  definition_hash = or_base o.definition_hash base.definition_hash;
  is_unattended = if o.requires_approval then false else base.is_unattended;
}
