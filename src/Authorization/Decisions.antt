-- ===== src/Authorization/Decisions.antt =====
-- What `evaluate` decides: one membership alone must grant everything.
use n8n_operator.Base.{
  ◌≡◌, refl, Bool, true, false, not, ◌&&◌, ◌||◌, Option, List, [], ◌∷◌, Text, any, if◌then◌else◌,
  ◌↔◌, inl, inr, arith, Bool-cases, Any,
}
use n8n_operator.Authorization.Evaluate.{
  Membership, Reason, role_lacks_capability, workflow_out_of_scope, environment_out_of_scope, deny,
  environment_scope_covers, has_capability, in_workflow_scope, same_person, evaluate_from, evaluate,
}

module _ (tool : Text) (workflow environment organization : Option Text) where
  -- One membership, on its own terms, grants the role's capability, the workflow and the
  -- environment.
  pub record Grants (m : Membership) : Type 0 where
    pub capable : has_capability m.roles tool ≡ true
    pub in_scope : in_workflow_scope m workflow ≡ true
    pub in_environment : environment_scope_covers m environment organization ≡ true

  from-Any :
      (r w : Bool) (ms : List Membership)
      → (evaluate_from tool workflow environment organization r w ms).is_allowed ≡ true
      → Any Grants ms
  unfolding evaluate_from
  from-Any r w [] h = ground arith
  from-Any r w (m ∷ ms) h = elim (Bool-cases (has_capability m.roles tool)) [
    | inr no_role ↦ inr (from-Any r w ms (ground arith))
    | inl capable ↦ elim (Bool-cases (in_workflow_scope m workflow)) [
      | inr outside ↦ inr (from-Any true w ms (ground arith))
      | inl in_scope ↦ elim (Bool-cases (environment_scope_covers m environment organization)) [
        | inr elsewhere ↦ inr (from-Any true true ms (ground arith))
        | inl covered ↦
            inl (record { capable = capable; in_scope = in_scope; in_environment = covered })
      ]
    ]
  ]

  Any-from :
      (r w : Bool) (ms : List Membership)
      → Any Grants ms
      → (evaluate_from tool workflow environment organization r w ms).is_allowed ≡ true
  unfolding evaluate_from
  Any-from r w [] h = absurd h
  Any-from r w (m ∷ ms) (inl g) = ground (arith, g.capable, g.in_scope, g.in_environment)
  Any-from r w (m ∷ ms) (inr g) =
      ground (arith, Any-from r w ms g, Any-from true w ms g, Any-from true true ms g)

  -- A call is allowed exactly when the decider is not the requester and some single membership of
  -- the list grants the capability, the workflow and the environment all by itself.
  pub evaluate_allowed_iff :
      (ms : List Membership) (requester decider : Option Text)
      → ((evaluate ms tool workflow environment organization requester decider).is_allowed ≡ true)
        ↔ ((same_person requester decider ≡ false) × Any Grants ms)
  unfolding evaluate
  evaluate_allowed_iff [] requester decider = (λ h. ground arith, λ h. absurd h.1)
  evaluate_allowed_iff (m ∷ ms) requester decider =
      elim (Bool-cases (same_person requester decider)) [
        | inl same ↦ (λ h. ground arith, λ h. ground arith)
        | inr other ↦ (
          λ h. (other, from-Any false false (m ∷ ms) (ground arith)),
          λ h. rw other (Any-from false false (m ∷ ms) h.1),
        )
      ]

  abbrev capable : Membership → Bool
  capable m = has_capability m.roles tool

  abbrev capable_in_scope : Membership → Bool
  capable_in_scope m = has_capability m.roles tool && in_workflow_scope m workflow

  -- The first conjunct, in the order role, workflow, environment, that no membership reaches
  -- together with the ones before it; `r` and `w` are what a scan saw already.
  abbrev pub missing : Bool → Bool → List Membership → Reason
  missing r w ms =
      if not (r || any capable ms)
      then role_lacks_capability
      else if not (w || any capable_in_scope ms)
      then workflow_out_of_scope
      else environment_out_of_scope

  from-missing :
      (r w : Bool) (ms : List Membership)
      → (evaluate_from tool workflow environment organization r w ms).is_allowed ≡ false
      → evaluate_from tool workflow environment organization r w ms ≡ deny (missing r w ms)
  unfolding evaluate_from
  from-missing true true [] h = refl
  from-missing true false [] h = refl
  from-missing false true [] h = refl
  from-missing false false [] h = refl
  from-missing r w (m ∷ ms) h =
      ground (arith, from-missing r w ms, from-missing true w ms, from-missing true true ms)

  -- Where the decider is not the requester, a denial of a list of memberships that is not empty
  -- names the first conjunct that no membership reaches together with the ones before it.
  pub evaluate_denied :
      (m : Membership) (ms : List Membership) (requester decider : Option Text)
      → let d = evaluate (m ∷ ms) tool workflow environment organization requester decider in
        same_person requester decider ≡ false
        → d.is_allowed ≡ false
        → d ≡ deny (missing false false (m ∷ ms))
  unfolding evaluate
  evaluate_denied m ms requester decider other h =
      rw other (from-missing false false (m ∷ ms) (rw other at h))
