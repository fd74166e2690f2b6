-- ===== src/N8n/Preflight.antt =====
-- `N8nPreflight.check` of src/n8n_operator/n8n/preflight.py.
use n8n_operator.Diff.Definitions.{items_of, get_or}
use n8n_operator.N8n.Canonical.{compute_definition_hash}
use n8n_operator.Service.Store.Rows.{WorkflowEntry}
use n8n_operator.Audit.Chain.{Digest}
use n8n_operator.Service.Ports.{PreflightPort, PreflightResult, PreflightCheck}
use n8n_operator.N8n.Checks.{
  credential_validity_check, pass, missing_credentials, webhook_node, check_credential_bindings,
  failure, skip, check_definition_unchanged, check_compatible_version, check_trigger, check_active,
  registry_only_checks,
}
pub mod Ready
use n8n_operator.Base.{
  ◌++◌, if◌then◌else◌, text_eq, [], ◌∷◌, any, Option, codes, not, Text, List, ℕ, none, some,
}
use n8n_operator.Json.{Fields, Json, obj, cons, nil, arr, str}
use n8n_operator.N8n.{Fetched, N8nClient, fetched, missing_on_instance, provider_error}

-- What `check` asks of the live definition.
unfoldable pub live_checks :
    (Json → Text) → Digest → (Text → Text) → WorkflowEntry → Fields → List PreflightCheck
unfolding check_active check_trigger check_definition_unchanged check_credential_bindings
    webhook_node missing_credentials compute_definition_hash get_or items_of
live_checks show digest nfc workflow live =
    let nodes = items_of (get_or (arr nil) (codes "nodes") live) in
    check_active live
    ∷ (check_trigger show workflow (webhook_node nodes)
        ∷ (check_definition_unchanged workflow (compute_definition_hash digest nfc live)
            ∷ (check_credential_bindings (missing_credentials nodes) ∷ [])))

abbrev pub skipped_live : List PreflightCheck
skipped_live =
    skip (codes "workflow_active")
    ∷ (skip (codes "trigger_compatibility")
        ∷ (skip (codes "definition_unchanged") ∷ (skip (codes "credential_bindings") ∷ [])))

-- `_fetch_live_definition` and the checks that depend on it
unfoldable pub checks_on :
    (Json → Text) → Digest → (Text → Text) → WorkflowEntry → Fetched → List PreflightCheck
unfolding live_checks
checks_on show digest nfc workflow missing_on_instance =
    failure (codes "workflow_exists") (codes "WORKFLOW_MISSING_ON_INSTANCE") none ∷ skipped_live
checks_on show digest nfc workflow provider_error =
    failure (codes "workflow_exists") (codes "INSTANCE_UNREACHABLE") none ∷ skipped_live
checks_on show digest nfc workflow (fetched live) =
    pass (codes "workflow_exists") ∷ live_checks show digest nfc workflow live

abbrev pub unreachable_checks : List PreflightCheck
unreachable_checks =
    failure (codes "instance_reachable") (codes "INSTANCE_UNREACHABLE") none
    ∷ (skip (codes "compatible_version") ∷ (skip (codes "workflow_exists") ∷ skipped_live))

-- `_result`
unfoldable pub preflight_result : List PreflightCheck → PreflightResult
preflight_result checks = record {
  ready = not (any (λ c. text_eq c.status (codes "fail")) checks);
  checks = checks;
}

-- `N8nPreflight.check`
unfoldable pub check :
    (Json → Text) → Digest → (Text → Text) → N8nClient → Option (List Text) → PreflightPort
unfolding preflight_result checks_on registry_only_checks check_compatible_version
check show digest nfc client supported workflow = preflight_result (
    (if client.is_healthy
      then pass (codes "instance_reachable")
        ∷ (check_compatible_version supported client.api_version
            ∷ checks_on show digest nfc workflow (client.get_workflow workflow.n8n_workflow_id))
      else unreachable_checks)
    ++ (credential_validity_check ∷ registry_only_checks workflow))
