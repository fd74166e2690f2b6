-- ===== src/Service/Eligible/Members.antt =====
-- Who is in the frozen policy of an operation: `_compute_eligible_approvers` of
-- src/n8n_operator/core/service.py.
use n8n_operator.Authorization.Roles.{approve_reject_capability}
use n8n_operator.Authorization.Glob.{match_workflow_scope}
use n8n_operator.Authorization.Evaluate.{Membership, environment_scope_covers, has_capability}
use n8n_operator.Service.Store.Rows.{Db}
use n8n_operator.Base.{
  ◌∙◌, false, [], text_eq_iff, arith, ◌∷◌, ◌||◌, ◌&&◌, any, ◌≡◌, text_eq, text_in, Bool, List, Text,
  refl, not, is_some, some, keep, Bool-cases, inl, inr, sym, ap,
}
use n8n_operator.Service.Eligible.{
  list_active_for_organization, may_approve, collect, compute_eligible_approvers, insert_sorted,
}

text_in-insert_sorted :
    (p a : Text) (bs : List Text) → text_in p (insert_sorted a bs) ≡ (text_eq p a || text_in p bs)
unfolding insert_sorted
text_in-insert_sorted p a [] = refl
text_in-insert_sorted p a (b ∷ bs) =
    ground (arith, text_in-insert_sorted p a bs, text_eq_iff a b, text_eq_iff p a, text_eq_iff p b)

module _ (organization_id workflow_id environment_id requester : Text) where
  -- The membership is an active one of `p` in the organization, `p` is not the requester, its roles
  -- may approve, and its scopes cover the workflow and the environment.
  abbrev pub approves_with : Text → Membership → Bool
  approves_with p m =
      text_eq m.organization_id organization_id
      && not (is_some m.removed_at)
      && text_eq m.principal_id p
      && not (text_eq p requester)
      && has_capability m.roles approve_reject_capability
      && match_workflow_scope m.workflow_scope workflow_id
      && environment_scope_covers m (some environment_id) (some organization_id)

  abbrev collected : List Membership → List Text
  collected ms = collect organization_id workflow_id environment_id requester ms

  -- The two ways to ask for one membership.
  asks_the_same :
      (p : Text) (m : Membership)
      → (text_eq m.organization_id organization_id
          && not (is_some m.removed_at)
          && (text_eq p m.principal_id
              && may_approve organization_id workflow_id environment_id requester m))
        ≡ approves_with p m
  unfolding may_approve
  asks_the_same p m = elim (Bool-cases (text_eq m.principal_id p)) [
    | inl here ↦
        let same = (text_eq_iff m.principal_id p).0 here in
        let back = (text_eq_iff p m.principal_id).1 (sym same) in
        let other : text_eq m.principal_id requester ≡ text_eq p requester =
          ap (λ x. text_eq x requester) same in
        ground arith
    | inr apart ↦
        let back : text_eq p m.principal_id ≡ false =
          ground (arith, text_eq_iff p m.principal_id, text_eq_iff m.principal_id p) in
        ground arith
  ]

  text_in-collect :
      (p : Text) (ms : List Membership)
      → text_in p (
          collected (
            keep (λ m. text_eq m.organization_id organization_id && not (is_some m.removed_at)) ms))
        ≡ any (approves_with p) ms
  unfolding collect
  text_in-collect p [] = refl
  text_in-collect p (m ∷ ms) =
      let rest = text_in-collect p ms in
      let asked = asks_the_same p m in
      elim (Bool-cases (text_eq m.organization_id organization_id && not (is_some m.removed_at))) [
        | inr gone ↦ rw gone (ground (arith, rest, asked, gone))
        | inl active ↦
            rw active
              (elim (Bool-cases
                (may_approve organization_id workflow_id environment_id requester m)) [
                  | inr may_not ↦ rw may_not (ground (arith, rest, asked, active, may_not))
                  | inl may ↦
                      let inserted = text_in-insert_sorted p m.principal_id _ in
                      rw may (inserted ∙ ground (arith, rest, asked, active, may))
                ])
      ]

  any-requester : (ms : List Membership) → any (approves_with requester) ms ≡ false
  any-requester [] = refl
  any-requester (m ∷ ms) =
      let own = (text_eq_iff requester requester).1 refl in ground (arith, any-requester ms, own)

  -- A principal is in the list of eligible approvers exactly when they are not the requester and some
  -- membership of theirs in the organization, which has not been removed, has a role that may approve, a
  -- workflow scope that matches the workflow and an environment scope that covers the environment.
  pub compute_eligible_approvers_lem :
      (p : Text) (db : Db)
      → let eligible =
          compute_eligible_approvers organization_id workflow_id environment_id requester db in
        (text_in p eligible ≡ any (approves_with p) db.memberships)
        × (text_in requester eligible ≡ false)
  unfolding compute_eligible_approvers list_active_for_organization
  compute_eligible_approvers_lem p db = (
    text_in-collect p db.memberships,
    text_in-collect requester db.memberships ∙ any-requester db.memberships,
  )
