-- ===== src/Registry/Overlays.antt =====
-- Environment overlays and their rules R13 and R14: src/n8n_operator/registry/loader.py.
use n8n_operator.Registry.{r13, r14, unless, or_default, RuleViolation}
use n8n_operator.Service.Store.Rows.{Overlay, WorkflowEntry, Limits}
use n8n_operator.Base.{
  ◌&&◌, text_eq, text_in, is_some, not, if◌then◌else◌, ◌++◌, [], true, ◌∷◌, ltb, codes, Bool, Text,
  List, Option, ℕ, none, some,
}

-- `WorkflowOverlayEntry`; no limits are the empty list. Limits that are negative are left out.
pub record WorkflowOverlayEntry : Type 0 where
  pub workflow_id : Text
  pub n8n_workflow_id : Option Text
  pub definition_hash : Option Text
  pub trigger_path : Option Text
  pub trigger_secret_ref : Option Text
  -- `approval_override`, which can only be "required"
  pub requires_approval : Bool
  pub limits_override : List (Text × ℕ)

pub data Direction : Type 0 where
  raise_only lower_only : Direction

-- `_LIMITS_STRENGTHEN_DIRECTION`
abbrev pub limits_strengthen_direction : List (Text × Direction)
limits_strengthen_direction =
    (codes "approval_ttl_seconds", raise_only)
    ∷ ((codes "execution_ttl_seconds", lower_only)
        ∷ ((codes "timeout_seconds", lower_only)
            ∷ ((codes "max_concurrent", lower_only)
                ∷ ((codes "rate_limit_per_minute", lower_only)
                    ∷ ((codes "max_argument_bytes", lower_only)
                        ∷ ((codes "quorum_count", raise_only) ∷ []))))))

-- `d.get(k)`
unfoldable pub value_at {ℓ} : {A : Type ℓ} → Text → List (Text × A) → Option A
value_at k [] = none
value_at k ((j, v) ∷ rest) = if text_eq j k then some v else value_at k rest

-- `getattr(limits, key)`
unfoldable pub limit_named : Text → Limits → Option ℕ
unfolding value_at
limit_named key limits =
    or_default
      (value_at key (
        (codes "approval_ttl_seconds", limits.approval_ttl_seconds)
        ∷ ((codes "execution_ttl_seconds", limits.execution_ttl_seconds)
            ∷ ((codes "timeout_seconds", limits.timeout_seconds)
                ∷ ((codes "max_concurrent", some limits.max_concurrent)
                    ∷ ((codes "rate_limit_per_minute", limits.rate_limit_per_minute)
                        ∷ ((codes "max_argument_bytes", limits.max_argument_bytes)
                            ∷ ((codes "quorum_count", some limits.quorum_count) ∷ []))))))))
      none

-- Whether a value weakens the base's.
abbrev pub weakens : Direction → ℕ → ℕ → Bool
weakens lower_only base value = ltb base value
weakens raise_only base value = ltb value base

-- Whether R14 lets a value stand for the base's; an unknown key is R13's to report.
abbrev pub is_allowed : Option Direction → Option ℕ → ℕ → Bool
is_allowed none base value = true
is_allowed (some direction) none value = true
is_allowed (some direction) (some base) value = not (weakens direction base value)

-- `_check_r14_overlay_strengthen_only`, of the rest of the limits
unfoldable pub check_limits : Limits → Text → List (Text × ℕ) → List RuleViolation
unfolding value_at limit_named
check_limits limits id [] = []
check_limits limits id ((key, value) ∷ rest) =
    unless (is_allowed (value_at key limits_strengthen_direction) (limit_named key limits) value)
      r14 id
    ++ check_limits limits id rest

unfoldable pub check_r14_overlay_strengthen_only :
    WorkflowEntry → WorkflowOverlayEntry → List RuleViolation
unfolding check_limits
check_r14_overlay_strengthen_only base o = check_limits base.limits o.workflow_id o.limits_override

abbrev knows_all : List (Text × ℕ) → Bool
knows_all [] = true
knows_all ((key, value) ∷ rest) =
    is_some (value_at key limits_strengthen_direction) && knows_all rest

-- `_check_r13_overlay_field_allowlist`, with the ids seen so far
unfoldable pub check_r13_overlay_field_allowlist :
    List Text → List Text → List WorkflowOverlayEntry → List RuleViolation
unfolding value_at
check_r13_overlay_field_allowlist base_ids seen [] = []
check_r13_overlay_field_allowlist base_ids seen (o ∷ os) =
    unless (text_in o.workflow_id base_ids) r13 o.workflow_id
    ++ (unless (not (text_in o.workflow_id seen)) r13 o.workflow_id
        ++ (unless (knows_all o.limits_override) r13 o.workflow_id
            ++ check_r13_overlay_field_allowlist base_ids (o.workflow_id ∷ seen) os))

-- `{entry.id: entry for entry in entries}.get(id)`: the last entry of an id counts.
unfoldable pub entry_by_id : Text → List WorkflowEntry → Option WorkflowEntry
entry_by_id id [] = none
entry_by_id id (e ∷ es) = elim (entry_by_id id es) [
  | some later ↦ some later
  | none ↦ if text_eq e.id id then some e else none
]

abbrev pub check_known : Option WorkflowEntry → WorkflowOverlayEntry → List RuleViolation
check_known none o = []
check_known (some base) o = check_r14_overlay_strengthen_only base o

unfoldable pub check_overlays : List WorkflowEntry → List WorkflowOverlayEntry → List RuleViolation
unfolding check_r14_overlay_strengthen_only entry_by_id
check_overlays entries [] = []
check_overlays entries (o ∷ os) =
    check_known (entry_by_id o.workflow_id entries) o ++ check_overlays entries os

-- `check_overlay_rules`, with the ids of the base document
unfoldable pub check_overlay_rules :
    List Text → List WorkflowEntry → List WorkflowOverlayEntry → List RuleViolation
unfolding check_r13_overlay_field_allowlist check_overlays
check_overlay_rules base_ids entries overlays =
    check_r13_overlay_field_allowlist base_ids [] overlays ++ check_overlays entries overlays

-- The row that an overlay of an environment is stored as.
unfoldable pub overlay_row : Text → WorkflowOverlayEntry → Overlay
unfolding value_at
overlay_row environment_id o =
    let limits = o.limits_override in
    record {
      workflow_id = o.workflow_id;
      environment_id = environment_id;
      n8n_workflow_id = o.n8n_workflow_id;
      definition_hash = o.definition_hash;
      trigger_path = o.trigger_path;
      trigger_secret_ref = o.trigger_secret_ref;
      requires_approval = o.requires_approval;
      limits_override = record {
        timeout_seconds = value_at (codes "timeout_seconds") limits;
        approval_ttl_seconds = value_at (codes "approval_ttl_seconds") limits;
        execution_ttl_seconds = value_at (codes "execution_ttl_seconds") limits;
        max_concurrent = value_at (codes "max_concurrent") limits;
        rate_limit_per_minute = value_at (codes "rate_limit_per_minute") limits;
        max_argument_bytes = value_at (codes "max_argument_bytes") limits;
        quorum_count = value_at (codes "quorum_count") limits;
      };
    }
