-- ===== src/N8n/Judged.antt =====
-- When each check of src/n8n_operator/n8n/preflight.py fails.
use n8n_operator.Service.Validation.{get_field, fields_of}
use n8n_operator.Service.Store.Rows.{WorkflowEntry}
use n8n_operator.N8n.Checks.{
  failure, pass, has_trigger, check_trigger, note_missing, method_text, parameters_of, live_path,
  webhook_node, is_text, missing_credential, missing_credentials, is_active,
  check_definition_unchanged, check_active, check_credential_bindings,
}
use n8n_operator.Service.Ports.{PreflightCheck}
use n8n_operator.Base.{
  text_eq_refl, sym, if◌then◌else◌, not, ◌∙◌, refl, text_eq_iff, inr, inl, ap, arith, Option-cases,
  ◌↔◌, false, true, ◌≡◌, codes, Bool, Text, text_eq, Option, none, some,
}
use n8n_operator.Json.{null, num, Fields, Items, Json, obj, cons, nil, arr, str, bool}

abbrev pub is_failed : PreflightCheck → Bool
is_failed c = text_eq c.status (codes "fail")

pub is_active_iff : (o : Option Json) → (is_active o ≡ true) ↔ (o ≡ some (bool true))
is_active_iff none = ground arith
is_active_iff (some null) = (λ h. absurd (ground arith), λ h. ap is_active h)
is_active_iff (some (bool true)) = (λ h. refl, λ h. refl)
is_active_iff (some (bool false)) = (λ h. absurd (ground arith), λ h. ap is_active h)
is_active_iff (some (num n)) = (λ h. absurd (ground arith), λ h. ap is_active h)
is_active_iff (some (str s)) = (λ h. absurd (ground arith), λ h. ap is_active h)
is_active_iff (some (arr xs)) = (λ h. absurd (ground arith), λ h. ap is_active h)
is_active_iff (some (obj fs)) = (λ h. absurd (ground arith), λ h. ap is_active h)

text-some_iff : (s t : Text) → (text_eq s t ≡ true) ↔ (some (str s) ≡ some (str t))
text-some_iff s t =
    (λ h. ap (λ x. some (str x)) ((text_eq_iff s t).0 h), λ h. (text_eq_iff s t).1 (cc))

is_text_iff : (o : Option Json) (t : Text) → (is_text o t ≡ true) ↔ (o ≡ some (str t))
is_text_iff none t = ground arith
is_text_iff (some null) t =
    (λ h. absurd (ground arith), λ h. ap (λ x. is_text x t) h ∙ text_eq_refl t)
is_text_iff (some (bool b)) t =
    (λ h. absurd (ground arith), λ h. ap (λ x. is_text x t) h ∙ text_eq_refl t)
is_text_iff (some (num n)) t =
    (λ h. absurd (ground arith), λ h. ap (λ x. is_text x t) h ∙ text_eq_refl t)
is_text_iff (some (arr xs)) t =
    (λ h. absurd (ground arith), λ h. ap (λ x. is_text x t) h ∙ text_eq_refl t)
is_text_iff (some (obj fs)) t =
    (λ h. absurd (ground arith), λ h. ap (λ x. is_text x t) h ∙ text_eq_refl t)
is_text_iff (some (str s)) t = text-some_iff s t

-- The webhook node has the path and the method of the registered trigger.
abbrev pub HasTrigger : (Json → Text) → WorkflowEntry → Items → Type 0
HasTrigger show workflow nodes =
    (node : Fields) × (webhook_node nodes ≡ some node)
    × (live_path show (parameters_of node) ≡ workflow.trigger_path)
    × (get_field (codes "httpMethod") (parameters_of node)
        ≡ some (str (method_text workflow.trigger_method)))

-- No node lacks a credential that it needs.
pub HasCredentials : Items → Type 0
HasCredentials nil = Unit
HasCredentials (cons n ns) = (missing_credential (fields_of n) ≡ none) × HasCredentials ns

failed_if :
    (b : Bool) (name code : Text) (detail : Option Json)
    → is_failed (if b then pass name else failure name code detail) ≡ not b
unfolding text_eq
failed_if true name code detail = refl
failed_if false name code detail = refl

pub failed-check_active :
    (live : Fields)
    → is_failed (check_active live) ≡ not (is_active (get_field (codes "active") live))
unfolding check_active
failed-check_active live = failed_if _ _ _ _

pub failed-check_definition :
    (workflow : WorkflowEntry) (live_hash : Text)
    → is_failed (check_definition_unchanged workflow live_hash)
      ≡ not (text_eq live_hash workflow.definition_hash)
unfolding check_definition_unchanged
failed-check_definition workflow live_hash = failed_if _ _ _ _

abbrev pub has_webhook : (Json → Text) → WorkflowEntry → Option Fields → Bool
has_webhook show workflow none = false
has_webhook show workflow (some node) = has_trigger show workflow (parameters_of node)

pub failed-check_trigger :
    (show : Json → Text) (workflow : WorkflowEntry) (node : Option Fields)
    → is_failed (check_trigger show workflow node) ≡ not (has_webhook show workflow node)
unfolding check_trigger text_eq
failed-check_trigger show workflow none = refl
failed-check_trigger show workflow (some node) = failed_if _ _ _ _

has_trigger_iff :
    (show : Json → Text) (workflow : WorkflowEntry) (params : Fields)
    → (has_trigger show workflow params ≡ true) ↔ (
        (live_path show params ≡ workflow.trigger_path)
        × (get_field (codes "httpMethod") params
            ≡ some (str (method_text workflow.trigger_method))))
unfolding has_trigger
has_trigger_iff show workflow params =
    let path = text_eq_iff (live_path show params) workflow.trigger_path in
    let method =
      is_text_iff (get_field (codes "httpMethod") params) (method_text workflow.trigger_method) in
    (
      λ h. (path.0 (ground arith), method.0 (ground arith)),
      λ (p, m). let a = path.1 p in let b = method.1 m in ground arith,
    )

pub has_webhook_iff :
    (show : Json → Text) (workflow : WorkflowEntry) (nodes : Items)
    → (has_webhook show workflow (webhook_node nodes) ≡ true) ↔ HasTrigger show workflow nodes
has_webhook_iff show workflow nodes = (
  λ h. elim (Option-cases (webhook_node nodes)) [
    | inl gone ↦ absurd (let h' = rw gone at h in ground arith)
    | inr (node, there) ↦
        let h' = (has_trigger_iff show workflow (parameters_of node)).0 (rw there at h) in
        (node, there, h'.0, h'.1)
  ],
  λ (node, there, path, method).
      rw there ((has_trigger_iff show workflow (parameters_of node)).1 (path, method)),
)

pub failed-check_credentials :
    (nodes : Items)
    → (is_failed (check_credential_bindings (missing_credentials nodes)) ≡ false)
      ↔ HasCredentials nodes
unfolding check_credential_bindings missing_credentials note_missing HasCredentials text_eq
failed-check_credentials nil = (λ h. tt, λ h. refl)
failed-check_credentials (cons n ns) = elim (Option-cases (missing_credential (fields_of n))) [
  | inl bound ↦
      let rest = failed-check_credentials ns in
      (λ h. (bound, rest.0 (rw bound at h)), λ (b, r). rw bound (rest.1 r))
  | inr (required, missing) ↦ (
    λ h. absurd (let h' = rw missing at h in ground arith),
    λ (bound, rest). absurd (let e = sym bound ∙ missing in ground arith),
  )
]
