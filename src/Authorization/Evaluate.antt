-- ===== src/Authorization/Evaluate.antt =====
-- `evaluate` of src/n8n_operator/core/authorization.py, over the memberships that the caller
-- fetched. The role names, scopes and ids are texts.
use n8n_operator.Base.{
  ℕ, Bool, true, false, not, ◌||◌, Option, none, some, List, [], ◌∷◌, Text, codes, text_eq, text_in,
  any, if◌then◌else◌,
}
use n8n_operator.Authorization.Roles.{capabilities_for_role}
use n8n_operator.Authorization.Glob.{match_workflow_scope}

-- `OrganizationMembership`
pub record Membership : Type 0 where
  pub principal_id : Text
  pub organization_id : Text
  pub roles : List Text
  pub workflow_scope : Text
  pub environment_scope : List Text
  pub removed_at : Option ℕ

-- `_ReasonCode`; `v1_ungated` is the literal of `core.service._authorize`.
pub data Reason : Type 0 where
  allowed no_active_membership role_lacks_capability workflow_out_of_scope : Reason
  environment_out_of_scope self_decision v1_ungated : Reason

pub record Decision : Type 0 where
  pub is_allowed : Bool
  pub reason_code : Reason

abbrev pub allow : Decision
allow = record { is_allowed = true; reason_code = allowed }

abbrev pub deny : Reason → Decision
deny r = record { is_allowed = false; reason_code = r }

-- `has_role`
unfoldable pub has_role : List Membership → Text → Bool
has_role memberships role = any (λ m. text_in role m.roles) memberships

-- `scope == ["*"]`
abbrev is_unscoped : List Text → Bool
is_unscoped (s ∷ []) = text_eq s (codes "*")
is_unscoped _ = false

abbrev differs : Text → Option Text → Bool
differs a none = false
differs a (some b) = not (text_eq a b)

-- `_environment_scope_satisfied`, and its public wrapper `environment_scope_covers`
unfoldable pub environment_scope_covers : Membership → Option Text → Option Text → Bool
environment_scope_covers m none organization = is_unscoped m.environment_scope
environment_scope_covers m (some environment) organization =
    if differs m.organization_id organization
    then false
    else text_in (codes "*") m.environment_scope || text_in environment m.environment_scope

unfoldable pub has_capability : List Text → Text → Bool
has_capability roles tool = any (λ role. text_in tool (capabilities_for_role role)) roles

abbrev pub in_workflow_scope : Membership → Option Text → Bool
in_workflow_scope m none = true
in_workflow_scope m (some workflow_id) = match_workflow_scope m.workflow_scope workflow_id

abbrev pub same_person : Option Text → Option Text → Bool
same_person (some requester) (some decider) = text_eq requester decider
same_person _ _ = false

module _ (tool : Text) (workflow environment organization : Option Text) where
  -- The loop over the memberships, with `saw_role_capability` and `saw_workflow_scope`.
  unfoldable pub evaluate_from : Bool → Bool → List Membership → Decision
  evaluate_from saw_role saw_workflow [] =
      if not saw_role
      then deny role_lacks_capability
      else if not saw_workflow
      then deny workflow_out_of_scope
      else deny environment_out_of_scope
  evaluate_from saw_role saw_workflow (m ∷ ms) =
      let no_role = evaluate_from saw_role saw_workflow ms in
      let no_workflow = evaluate_from true saw_workflow ms in
      let no_environment = evaluate_from true true ms in
      if not (has_capability m.roles tool)
      then no_role
      else if not (in_workflow_scope m workflow)
      then no_workflow
      else if not (environment_scope_covers m environment organization)
      then no_environment
      else allow

-- The tool, workflow, environment and its organization; the requester and the decider, which only
-- the approval path gives.
unfoldable pub evaluate :
    List Membership
    → Text
    → Option Text
    → Option Text
    → Option Text
    → Option Text
    → Option Text
    → Decision
unfolding evaluate_from
evaluate memberships tool workflow environment organization requester decider =
    if same_person requester decider then deny self_decision else elim memberships [
      | [] ↦ deny no_active_membership
      | m ∷ ms ↦ evaluate_from tool workflow environment organization false false (m ∷ ms)
    ]
