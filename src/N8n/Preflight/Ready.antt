-- ===== src/N8n/Preflight/Ready.antt =====
-- Which workflows are ready: `_result` of src/n8n_operator/n8n/preflight.py over all the checks.
use n8n_operator.N8n.Judged.{
  failed-check_definition, failed-check_trigger, failed-check_active, failed-check_credentials,
  has_webhook_iff, HasCredentials, is_active_iff, is_failed, HasTrigger,
}
use n8n_operator.N8n.Preflight.{check}
use n8n_operator.N8n.Preflight.{unreachable_checks, preflight_result, live_checks, checks_on}
use n8n_operator.N8n.Canonical.{compute_definition_hash}
use n8n_operator.Diff.Definitions.{get_or, items_of}
use n8n_operator.Audit.Chain.{Digest}
use n8n_operator.Service.Validation.{get_field}
use n8n_operator.Service.Store.Rows.{WorkflowEntry}
use n8n_operator.N8n.Checks.{
  is_read_only, credential_validity_check, registry_only_checks, check_compatible_version, pass,
  webhook_node,
}
use n8n_operator.Service.Ports.{PreflightCheck}
use n8n_operator.Base.{
  [], subst, ◌++◌, ◌||◌, ◌∷◌, ◌&&◌, text_in, List, any, sym, if◌then◌else◌, not, ◌∙◌, refl,
  text_eq_iff, inr, inl, ap, Bool-cases, arith, ◌↔◌, false, true, ◌≡◌, codes, Bool, Text, text_eq,
  Option, none, some,
}
use n8n_operator.Json.{Fields, Json, nil, arr, bool}
use n8n_operator.N8n.{Fetched, N8nClient, fetched, missing_on_instance, provider_error}

registry_only_checks-silent :
    (workflow : WorkflowEntry) → any is_failed (registry_only_checks workflow) ≡ false
unfolding registry_only_checks text_eq
registry_only_checks-silent workflow =
    let unattended = workflow.is_unattended && is_read_only workflow.side_effects in
    elim (Bool-cases workflow.has_correlation) [
      | inl a ↦ elim (Bool-cases unattended) [ inl b ↦ rw (a, b) refl | inr b ↦ rw (a, b) refl ]
      | inr a ↦ elim (Bool-cases unattended) [ inl b ↦ rw (a, b) refl | inr b ↦ rw (a, b) refl ]
    ]

check_compatible_version-silent :
    (supported : Option (List Text)) (version : Option Text)
    → is_failed (check_compatible_version supported version) ≡ false
unfolding check_compatible_version text_eq
check_compatible_version-silent none version = refl
check_compatible_version-silent (some supported) none = refl
check_compatible_version-silent (some supported) (some version) =
    elim (Bool-cases (text_in version supported)) [
      | inl known ↦ rw known refl
      | inr unknown ↦ rw unknown refl
    ]

any-append :
    (xs ys : List PreflightCheck)
    → any is_failed (xs ++ ys) ≡ (any is_failed xs || any is_failed ys)
any-append [] ys = refl
any-append (x ∷ xs) ys = ground (arith, any-append xs ys)

or_false : (b : Bool) → (b || false) ≡ b
or_false true = refl
or_false false = refl

module _ (show : Json → Text) (digest : Digest) (nfc : Text → Text) (client : N8nClient)
    (supported : Option (List Text)) (workflow : WorkflowEntry) where
  -- The live definition passes: it is active, its webhook node is the registered trigger, its hash is
  -- the registered hash, and no node lacks a credential.
  abbrev pub Unchanged : Fields → Type 0
  Unchanged live =
      (get_field (codes "active") live ≡ some (bool true))
      × HasTrigger show workflow (items_of (get_or (arr nil) (codes "nodes") live))
      × (compute_definition_hash digest nfc live ≡ workflow.definition_hash)
      × HasCredentials (items_of (get_or (arr nil) (codes "nodes") live))

  live_checks_iff :
      (live : Fields)
      → (any is_failed (live_checks show digest nfc workflow live) ≡ false) ↔ Unchanged live
  unfolding live_checks
  live_checks_iff live =
      let nodes = items_of (get_or (arr nil) (codes "nodes") live) in
      let active = is_active_iff (get_field (codes "active") live) in
      let trigger = has_webhook_iff show workflow nodes in
      let hash = text_eq_iff (compute_definition_hash digest nfc live) workflow.definition_hash in
      let credentials = failed-check_credentials nodes in
      let a = failed-check_active live in
      let b = failed-check_trigger show workflow (webhook_node nodes) in
      let c = failed-check_definition workflow (compute_definition_hash digest nfc live) in
      (
        λ h. (
          active.0 (ground arith),
          trigger.0 (ground arith),
          hash.0 (ground arith),
          credentials.0 (ground arith),
        ),
        λ (p, q, r, s).
            let p' = active.1 p in
            let q' = trigger.1 q in let r' = hash.1 r in let s' = credentials.1 s in ground arith,
      )

  -- The instance answers, and the workflow's live definition passes.
  abbrev pub Deployable : Type 0
  Deployable =
      (client.is_healthy ≡ true)
      × (live : Fields) × (client.get_workflow workflow.n8n_workflow_id ≡ fetched live)
      × Unchanged live

  tail-silent : any is_failed (credential_validity_check ∷ registry_only_checks workflow) ≡ false
  unfolding text_eq
  tail-silent = registry_only_checks-silent workflow

  checks_on_iff :
      (answer : Fetched)
      → (any is_failed (checks_on show digest nfc workflow answer) ≡ false)
        ↔ ((live : Fields) × (answer ≡ fetched live) × Unchanged live)
  unfolding checks_on text_eq
  checks_on_iff missing_on_instance =
      (λ h. absurd (ground arith), λ (live, e, u). absurd (ground arith))
  checks_on_iff provider_error = (λ h. absurd (ground arith), λ (live, e, u). absurd (ground arith))
  checks_on_iff (fetched live) =
      let same : (live' : Fields) → fetched live ≡ fetched live' → live ≡ live' =
        λ live' e. ap (λ f. elim f [ fetched x ↦ x | _ ↦ live ]) e in
      (
        λ h. (live, refl, (live_checks_iff live).0 h),
        λ (live', e, u). (live_checks_iff live).1 (subst (λ x. Unchanged x) (sym (same live' e)) u),
      )

  front : Bool → Fetched → List PreflightCheck
  front healthy answer =
      if healthy
      then pass (codes "instance_reachable")
        ∷ (check_compatible_version supported client.api_version
            ∷ checks_on show digest nfc workflow answer)
      else unreachable_checks

  front_iff :
      (healthy : Bool) (answer : Fetched)
      → (any is_failed (front healthy answer) ≡ false)
        ↔ ((healthy ≡ true) × (any is_failed (checks_on show digest nfc workflow answer) ≡ false))
  unfolding text_eq front
  front_iff true answer =
      let version = check_compatible_version-silent supported client.api_version in
      (λ h. (refl, ground arith), λ (r, h). ground arith)
  front_iff false answer = (λ h. absurd (ground arith), λ (r, h). absurd (ground arith))

  ready-front :
      (check show digest nfc client supported workflow).ready
      ≡ not (any is_failed (front client.is_healthy (client.get_workflow workflow.n8n_workflow_id)))
  unfolding check preflight_result front
  ready-front =
      let answer = client.get_workflow workflow.n8n_workflow_id in
      let rest = credential_validity_check ∷ registry_only_checks workflow in
      ap not (
        any-append (front client.is_healthy answer) rest
        ∙ rw tail-silent (or_false (any is_failed (front client.is_healthy answer))))

  -- For any client and any registered workflow, the preflight is ready exactly if the instance answers,
  -- it has the workflow, the workflow is active there, its first webhook node has the registered path
  -- and method, its hash is the registered one, and each node has the credential that it names. No other
  -- check can make a workflow fail, whatever the version of the instance.
  pub check-ready : ((check show digest nfc client supported workflow).ready ≡ true) ↔ Deployable
  check-ready =
      let answer = client.get_workflow workflow.n8n_workflow_id in
      let ends = front_iff client.is_healthy answer in
      let lives = checks_on_iff answer in
      (
        λ h.
            let quiet = ends.0 (let e = ready-front in ground arith) in
            let found = lives.0 quiet.1 in (quiet.0, found.0, found.1, found.2),
        λ (healthy, live, there, same).
            let quiet = ends.1 (healthy, lives.1 (live, there, same)) in
            let e = ready-front in ground arith,
      )
