-- ===== src/Authorization/Duties.antt =====
-- Separation of duties in the capability table, and the organization boundary.
use n8n_operator.Base.{
  ◌≡◌, ◌⊎◌, inl, inr, true, Option, some, List, [], ◌∷◌, Text, codes, text_eq, text_eq_iff, text_in,
  Any, arith,
}
use n8n_operator.Authorization.Roles.{admin, capabilities_for_role, approve_reject_capability}
use n8n_operator.Authorization.Evaluate.{
  Membership, evaluate, environment_scope_covers, has_capability,
}
use n8n_operator.Authorization.Decisions.{evaluate_allowed_iff}

-- Only the administrator's role can both decide an operation and prepare or execute one.
pub decider_and_requester :
    (role : Text)
    → text_in approve_reject_capability (capabilities_for_role role) ≡ true
    → (text_in (codes "prepare_operation") (capabilities_for_role role) ≡ true)
      ⊎ (text_in (codes "execute_operation") (capabilities_for_role role) ≡ true)
    → role ≡ admin
unfolding capabilities_for_role text_eq
decider_and_requester role h k = ground (arith, text_eq_iff role admin)

covers_organization :
    (m : Membership) (e o : Text)
    → environment_scope_covers m (some e) (some o) ≡ true
    → m.organization_id ≡ o
unfolding environment_scope_covers
covers_organization m e o h = ground (arith, text_eq_iff m.organization_id o)

Any-map :
    {P Q : Membership → Type 0}
    → ((m : Membership) → P m → Q m)
    → (ms : List Membership) → Any P ms
    → Any Q ms
Any-map f [] h = h
Any-map f (m ∷ ms) (inl p) = inl (f m p)
Any-map f (m ∷ ms) (inr p) = inr (Any-map f ms p)

-- A call on an environment of an organization is allowed only if the list holds a membership of
-- that same organization with a role that has the capability.
pub evaluate_organization :
    (ms : List Membership) (tool : Text) (workflow : Option Text) (e o : Text)
    (requester decider : Option Text)
    → (evaluate ms tool workflow (some e) (some o) requester decider).is_allowed ≡ true
    → Any (λ m. (m.organization_id ≡ o) × (has_capability m.roles tool ≡ true)) ms
evaluate_organization ms tool workflow e o requester decider h =
    Any-map (λ m g. (covers_organization m e o g.in_environment, g.capable)) ms
      ((evaluate_allowed_iff tool workflow (some e) (some o) ms requester decider).0 h).1
