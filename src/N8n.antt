-- ===== src/N8n.antt =====
-- The adapter to n8n: what src/n8n_operator/n8n/preflight.py asks of the HTTP client of
-- src/n8n_operator/n8n/client.py, which is a parameter.
use n8n_operator.Json.{Fields}
pub mod Canonical
pub mod Checks
pub mod Judged
pub mod Preflight
use n8n_operator.Base.{Text, Option, Bool, ℕ}

-- `get_workflow`: a definition, `WorkflowMissingOnInstanceError`, or another `ProviderError`.
pub data Fetched : Type 0 where
  fetched : Fields → Fetched
  missing_on_instance : Fetched
  provider_error : Fetched

-- `N8nClient`: whether `health_check` returns, the version, if any, and a definition by its id.
pub record N8nClient : Type 0 where
  pub is_healthy : Bool
  pub api_version : Option Text
  pub get_workflow : Text → Fetched
