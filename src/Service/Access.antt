-- ===== src/Service/Access.antt =====
-- Who may see or act on an operation: `_authorize`, `_get_owned_operation_row`,
-- `_apply_environment` of src/n8n_operator/core/service.py and `resolve_environment` of
-- src/n8n_operator/core/identity.py.
use n8n_operator.Base.{
  Bool, true, not, ◌&&◌, Option, none, some, is_some, List, [], ◌∷◌, ◌++◌, first, keep, Text,
  text_eq, if◌then◌else◌,
}
use n8n_operator.Authorization.Evaluate.{Membership, Decision, evaluate, v1_ungated}
use n8n_operator.Service.Outcome.{
  Session, ◌>>=◌, ◌>>◌, pure, raise, raise_if, gets, or_raise, operation_not_found, assertion,
  environment_not_found, environment_required, environment_archived, workflow_not_found,
}
use n8n_operator.Service.Store.Rows.{Operation, Environment, Overlay, WorkflowEntry, Db, Context}
use n8n_operator.Service.Transition.{get_operation_row}
use n8n_operator.Service.Registry.{resolve_overlay}

-- `list_active_for_principal`; the rows stand in the order of `created_at`.
unfoldable pub list_active_for_principal : Text → Db → List Membership
list_active_for_principal principal_id db =
    keep (λ m. text_eq m.principal_id principal_id && not (is_some m.removed_at)) db.memberships

-- `_authorize`: the tool, the workflow, the environment and its organization, and for the
-- approval path the requester and the decider.
unfoldable pub authorize :
    Bool
    → Text
    → Text
    → Option Text
    → Option Text
    → Option Text
    → Option Text
    → Option Text
    → Db
    → Decision
authorize enable_v2 principal tool workflow environment organization requester decider db =
    if not enable_v2
    then record { is_allowed = true; reason_code = v1_ungated }
    else evaluate (list_active_for_principal principal db) tool workflow environment organization
        requester decider

unfoldable pub get_environment : Text → Db → Option Environment
get_environment environment_id db = first (λ e. text_eq e.id environment_id) db.environments

-- The organization of a row's environment, which must exist if the row names one.
unfoldable pub organization_of : Option Text → Session Db (Option Text)
organization_of none = pure none
organization_of (some environment_id) = do
  found ← gets (get_environment environment_id)
  environment ← or_raise found assertion
  pure (some environment.organization_id)

-- The check of `_get_owned_operation_row` on a row that is another principal's.
unfoldable pub check_not_owner : Bool → Text → Text → Operation → Session Db Operation
check_not_owner enable_v2 principal tool row = do
  raise_if (not enable_v2) operation_not_found
  organization ← organization_of row.environment_id
  decision ← gets (
      authorize enable_v2 principal tool (some row.workflow_id) row.environment_id organization none
        none)
  raise_if (not decision.is_allowed) operation_not_found
  pure row

-- `_get_owned_operation_row`
unfoldable pub get_owned_operation_row : Context → Bool → Text → Text → Text → Session Db Operation
get_owned_operation_row ctx enable_v2 operation_id principal tool = do
  row ← get_operation_row ctx operation_id
  if text_eq row.principal_id principal
      then pure row
      else check_not_owner enable_v2 principal tool row

-- `list_for_organization(..., include_archived=True)` for each membership in turn
visible_environments : List Membership → Db → List Environment
visible_environments [] db = []
visible_environments (m ∷ ms) db =
    keep (λ e. text_eq e.organization_id m.organization_id) db.environments
    ++ visible_environments ms db

abbrev pub only : List Environment → Session Db Environment
only (e ∷ []) = pure e
only _ = raise environment_required

-- `resolve_environment`
unfoldable pub resolve_environment : Text → Option Text → Session Db Environment
unfolding visible_environments
resolve_environment principal environment = do
  visible ← gets (λ db. visible_environments (list_active_for_principal principal db) db)
  elim environment [
    | some id ↦ or_raise (first (λ e. text_eq e.id id) visible) environment_not_found
    | none ↦ only (keep (λ e. not (is_some e.archived_at)) visible)
  ]

unfoldable pub get_overlay : Text → Text → Db → Option Overlay
get_overlay workflow_id environment_id db =
    first (λ o. text_eq o.workflow_id workflow_id && text_eq o.environment_id environment_id)
      db.overlays

-- `_apply_environment` in v2.
unfoldable pub apply_environment_v2 :
    Text → Option Text → Text → WorkflowEntry → Text → Bool → Session Db (Text × WorkflowEntry)
apply_environment_v2 principal environment workflow_id base tool forbid_archived = do
  resolved ← resolve_environment principal environment
  raise_if (forbid_archived && is_some resolved.archived_at) environment_archived
  decision ← gets (
      authorize true principal tool (some workflow_id) (some resolved.id)
        (some resolved.organization_id) none none)
  raise_if (not decision.is_allowed) workflow_not_found
  overlay ← gets (get_overlay workflow_id resolved.id)
  pure (resolved.id, resolve_overlay base overlay)

-- `_apply_environment`
unfoldable pub apply_environment :
    Bool
    → Text
    → Option Text
    → Text
    → WorkflowEntry
    → Text
    → Bool
    → Session Db (Option Text × WorkflowEntry)
apply_environment enable_v2 principal environment workflow_id base tool forbid_archived =
    if not enable_v2 then pure (none, base) else (do
      (environment_id, entry) ←
          apply_environment_v2 principal environment workflow_id base tool forbid_archived
      pure (some environment_id, entry))
