-- ===== src/Service/Eligible.antt =====
-- `_compute_eligible_approvers` of src/n8n_operator/core/service.py.
pub mod Members
use n8n_operator.Base.{
  Bool, not, ◌&&◌, some, is_some, List, [], ◌∷◌, keep, Text, text_eq, if◌then◌else◌,
}
use n8n_operator.Json.{text_lt}
use n8n_operator.Authorization.Roles.{approve_reject_capability}
use n8n_operator.Authorization.Glob.{match_workflow_scope}
use n8n_operator.Authorization.Evaluate.{Membership, environment_scope_covers, has_capability}
use n8n_operator.Service.Store.Rows.{Db}

-- `list_active_for_organization`; the rows stand in the order of `created_at`.
unfoldable pub list_active_for_organization : Text → Db → List Membership
list_active_for_organization organization_id db =
    keep (λ m. text_eq m.organization_id organization_id && not (is_some m.removed_at))
      db.memberships

-- `set.add` on a set that is kept in the order of `sorted`.
unfoldable pub insert_sorted : Text → List Text → List Text
insert_sorted a [] = a ∷ []
insert_sorted a (b ∷ bs) =
    let later = insert_sorted a bs in
    if text_eq a b then b ∷ bs else if text_lt a b then a ∷ b ∷ bs else b ∷ later

module _ (organization_id workflow_id environment_id requester : Text) where
  -- What the loop asks of one membership.
  unfoldable pub may_approve : Membership → Bool
  may_approve m =
      not (text_eq m.principal_id requester)
      && has_capability m.roles approve_reject_capability
      && match_workflow_scope m.workflow_scope workflow_id
      && environment_scope_covers m (some environment_id) (some organization_id)

  unfoldable pub collect : List Membership → List Text
  unfolding may_approve insert_sorted
  collect [] = []
  collect (m ∷ ms) =
      let rest = collect ms in if may_approve m then insert_sorted m.principal_id rest else rest

  unfoldable pub compute_eligible_approvers : Db → List Text
  unfolding collect list_active_for_organization
  compute_eligible_approvers db = collect (list_active_for_organization organization_id db)
