-- ===== src/Examples/Access.antt =====
-- Runs of src/n8n_operator/core/authorization.py and of the overlay merge.
use n8n_operator.Authorization.Duties.{decider_and_requester, evaluate_organization}
use n8n_operator.Authorization.Decisions.{evaluate_allowed_iff, evaluate_denied, Grants, missing}
use n8n_operator.Json.{null}
use n8n_operator.Service.Store.Rows.{
  no_auth, post_method, external_write, medium, Overlay, WorkflowEntry,
}
use n8n_operator.Authorization.Roles.{operator, admin, capabilities_for_role}
use n8n_operator.Authorization.Evaluate.{has_capability, same_person, deny, evaluate, Membership}
use n8n_operator.Base.{
  refl, ◌≡◌, ◌↔◌, true, false, none, some, Option, ◌⊎◌, inl, inr, Text, codes, List, [], ◌∷◌, Any,
}

abbrev ana_operator : Membership
ana_operator = record {
  principal_id = codes "ana";
  organization_id = codes "acme";
  roles = operator ∷ [];
  workflow_scope = codes "billing_*";
  environment_scope = codes "*" ∷ [];
  removed_at = none;
}

evaluate_allowed_iff_example :
    ((evaluate
        (ana_operator ∷ [])
        (codes "execute_operation")
        (some (codes "billing_close"))
        (some (codes "prod"))
        (some (codes "acme"))
        none
        none).is_allowed
      ≡ true)
    ↔ ((same_person none none ≡ false)
        × Any
            (Grants
              (codes "execute_operation")
              (some (codes "billing_close"))
              (some (codes "prod"))
              (some (codes "acme")))
            (ana_operator ∷ []))
evaluate_allowed_iff_example =
    evaluate_allowed_iff (codes "execute_operation") (some (codes "billing_close"))
      (some (codes "prod")) (some (codes "acme")) (ana_operator ∷ []) none none

evaluate_denied_example :
    evaluate
      (ana_operator ∷ [])
      (codes "execute_operation")
      (some (codes "payroll"))
      (some (codes "prod"))
      (some (codes "acme"))
      none
      none
    ≡ deny (
        missing
          (codes "execute_operation")
          (some (codes "payroll"))
          (some (codes "prod"))
          (some (codes "acme"))
          false
          false
          (ana_operator ∷ []))
unfolding evaluate has_capability capabilities_for_role n8n_operator.Base.text_eq
    n8n_operator.Authorization.Glob.match_workflow_scope
evaluate_denied_example =
    evaluate_denied (codes "execute_operation") (some (codes "payroll")) (some (codes "prod"))
      (some (codes "acme")) ana_operator [] none none refl refl

evaluate_organization_example :
    Any
      (λ m.
        (m.organization_id ≡ codes "acme")
        × (has_capability m.roles (codes "execute_operation") ≡ true))
      (ana_operator ∷ [])
unfolding evaluate has_capability capabilities_for_role n8n_operator.Base.text_eq
    n8n_operator.Authorization.Glob.match_workflow_scope
    n8n_operator.Authorization.Evaluate.environment_scope_covers
evaluate_organization_example =
    evaluate_organization (ana_operator ∷ []) (codes "execute_operation")
      (some (codes "billing_close")) (codes "prod") (codes "acme") none none refl

decider_and_requester_example : admin ≡ admin
unfolding capabilities_for_role n8n_operator.Base.text_eq
decider_and_requester_example = decider_and_requester admin refl (inl refl)

abbrev pub base_entry : WorkflowEntry
base_entry = record {
  id = codes "close";
  n8n_workflow_id = codes "41";
  title = codes "Close";
  description = codes "Closes the books";
  owner = codes "finance";
  version = 1;
  risk = medium;
  side_effects = external_write;
  definition_hash = codes "h";
  is_unattended = false;
  trigger_method = post_method;
  trigger_path = codes "hook";
  trigger_auth = no_auth;
  trigger_secret_ref = none;
  has_correlation = false;
  input_schema = null;
  limits = record {
    timeout_seconds = some 30;
    approval_ttl_seconds = some 60;
    execution_ttl_seconds = some 60;
    max_concurrent = 1;
    rate_limit_per_minute = none;
    max_argument_bytes = none;
    quorum_count = 1;
  };
  output = record { redact = []; max_bytes = 65536; include_node_trace = false };
  tags = [];
  enabled = true;
}

abbrev prod_overlay : Overlay
prod_overlay = record {
  workflow_id = codes "close";
  environment_id = codes "prod";
  n8n_workflow_id = none;
  definition_hash = some (codes "h2");
  trigger_path = none;
  trigger_secret_ref = none;
  requires_approval = true;
  limits_override = record {
    timeout_seconds = none;
    approval_ttl_seconds = none;
    execution_ttl_seconds = none;
    max_concurrent = some 2;
    rate_limit_per_minute = none;
    max_argument_bytes = none;
    quorum_count = none;
  };
}
