-- ===== src/Service/Discovery.antt =====
-- What a caller may see of the registered workflows: `list_workflows`, `describe_workflow`,
-- `validate_input` and `preflight_workflow` of src/n8n_operator/core/service.py. Internal errors of
-- pydantic and of the code (`ValueError`) count as failed assertions.
use n8n_operator.Service.Access.{apply_environment, get_overlay, authorize, resolve_environment}
use n8n_operator.Service.Ports.{PreflightResult, PreflightCheck, JsonSchema, PreflightPort}
use n8n_operator.Json.Nfc.{put}
use n8n_operator.Service.Validation.{ArgumentError, fields_of, validate_arguments}
use n8n_operator.Service.Registry.{resolve_overlay, find_entry, require_active_snapshot}
use n8n_operator.Json.{str, obj, end, Fields, Json, text_lt}
use n8n_operator.Service.Store.Rows.{
  high, irreversible, medium, Db, external_write, Environment, low, read_only, Risk, WorkflowEntry,
  SideEffects,
}
use n8n_operator.Service.Outcome.{
  invalid_arguments, workflow_not_found, raise_if, assertion, gets, or_raise, pure, Session, ◌>>=◌,
  ◌>>◌,
}
use n8n_operator.Base.{
  leb, ◌++◌, not, length, map, false, text_eq, codes, text_in, zero, suc, keep, true, ◌&&◌,
  if◌then◌else◌, Bool, Option, List, Text, ℕ, none, some, [], ◌∷◌,
}

-- `WorkflowSummary`
pub record WorkflowSummary : Type 0 where
  pub workflow_id : Text
  pub title : Text
  pub description : Text
  pub risk : Risk
  pub side_effects : SideEffects
  -- `approval == "none"`
  pub is_unattended : Bool
  pub tags : List Text
  pub owner : Text
  pub version : ℕ

-- `WorkflowSummary.from_entry`
abbrev pub summary_of : WorkflowEntry → WorkflowSummary
summary_of e = record {
  workflow_id = e.id;
  title = e.title;
  description = e.description;
  risk = e.risk;
  side_effects = e.side_effects;
  is_unattended = e.is_unattended;
  tags = e.tags;
  owner = e.owner;
  version = e.version;
}

abbrev has_tags : List Text → WorkflowSummary → Bool
has_tags [] s = true
has_tags (t ∷ ts) s = text_in t s.tags && has_tags ts s

abbrev risk_eq : Risk → Risk → Bool
risk_eq low low = true
risk_eq medium medium = true
risk_eq high high = true
risk_eq _ _ = false

abbrev effects_eq : SideEffects → SideEffects → Bool
effects_eq read_only read_only = true
effects_eq external_write external_write = true
effects_eq irreversible irreversible = true
effects_eq _ _ = false

abbrev agrees {ℓ} : {A : Type ℓ} → (A → A → Bool) → Option A → A → Bool
agrees eq none a = true
agrees eq (some wanted) a = eq wanted a

-- The three filters, one after the other.
unfoldable pub matches : List Text → Option Risk → Option SideEffects → WorkflowSummary → Bool
matches tags risk side_effects s =
    has_tags tags s && (agrees risk_eq risk s.risk && agrees effects_eq side_effects s.side_effects)

insert_summary : WorkflowSummary → List WorkflowSummary → List WorkflowSummary
unfolding text_lt
insert_summary s [] = s ∷ []
insert_summary s (t ∷ ts) =
    let later = insert_summary s ts in
    if text_lt t.workflow_id s.workflow_id then t ∷ later else s ∷ (t ∷ ts)

-- `sorted(summaries, key=lambda s: s.workflow_id)`
unfoldable pub sort_summaries : List WorkflowSummary → List WorkflowSummary
unfolding insert_summary
sort_summaries [] = []
sort_summaries (s ∷ ss) = insert_summary s (sort_summaries ss)

abbrev is_after : Option Text → WorkflowSummary → Bool
is_after none s = true
is_after (some cursor) s = text_lt cursor s.workflow_id

unfoldable pub first_summaries : ℕ → List WorkflowSummary → List WorkflowSummary
first_summaries zero ss = []
first_summaries (suc n) [] = []
first_summaries (suc n) (s ∷ ss) = s ∷ first_summaries n ss

-- A page of the filtered summaries.
unfoldable pub page : ℕ → Option Text → List WorkflowSummary → List WorkflowSummary
unfolding sort_summaries first_summaries text_lt
page limit cursor summaries =
    first_summaries limit (keep (is_after cursor) (sort_summaries summaries))

-- The entries that the caller's roles reach in the environment, as its overlays make them.
unfoldable pub merged_entries : Text → Environment → List WorkflowEntry → Db → List WorkflowEntry
merged_entries principal resolved [] db = []
merged_entries principal resolved (e ∷ es) db =
    let rest = merged_entries principal resolved es db in
    if (authorize true principal (codes "list_workflows") (some e.id) (some resolved.id)
      (some resolved.organization_id) none none db).is_allowed
    then resolve_overlay e (get_overlay e.id resolved.id db) ∷ rest
    else rest

-- `list_workflows` in v2
unfoldable pub list_workflows_v2 :
    List Text
    → Option Risk
    → Option SideEffects
    → Text
    → Option Text
    → ℕ
    → Option Text
    → List WorkflowEntry
    → Session Db (List WorkflowSummary)
unfolding merged_entries matches page
list_workflows_v2 tags risk side_effects principal environment limit cursor enabled = do
  resolved ← resolve_environment principal environment
  entries ← gets (merged_entries principal resolved enabled)
  raise_if (not (leb 1 limit && leb limit 100)) invalid_arguments
  pure (page limit cursor (keep (matches tags risk side_effects) (map summary_of entries)))

unfoldable pub list_workflows :
    Bool
    → List Text
    → Option Risk
    → Option SideEffects
    → Text
    → Option Text
    → ℕ
    → Option Text
    → Session Db (List WorkflowSummary)
unfolding list_workflows_v2 require_active_snapshot
list_workflows enable_v2 tags risk side_effects principal environment limit cursor = do
  snapshot ← require_active_snapshot
  if enable_v2
      then list_workflows_v2 tags risk side_effects principal environment limit cursor
          (keep (λ e. e.enabled) snapshot.workflows)
      else pure (
          keep (matches tags risk side_effects)
            (map summary_of (keep (λ e. e.enabled) snapshot.workflows)))

-- The entry of a workflow that is there and enabled, in the caller's environment, if there is a caller.
unfoldable pub visible_entry :
    Bool → Option Text → Option Text → Text → Text → Session Db (Option Text × WorkflowEntry)
visible_entry enable_v2 none environment workflow_id tool = do
  snapshot ← require_active_snapshot
  entry ← or_raise (find_entry snapshot.workflows workflow_id) workflow_not_found
  raise_if (not entry.enabled) workflow_not_found
  pure (none, entry)
visible_entry enable_v2 (some principal) environment workflow_id tool = do
  snapshot ← require_active_snapshot
  entry ← or_raise (find_entry snapshot.workflows workflow_id) workflow_not_found
  raise_if (not entry.enabled) workflow_not_found
  apply_environment enable_v2 principal environment workflow_id entry tool false

-- `WorkflowDetail`
pub record WorkflowDetail : Type 0 where
  pub summary : WorkflowSummary
  pub input_schema : Json
  pub max_bytes : ℕ
  pub include_node_trace : Bool
  pub redacted_paths : ℕ
  pub timeout_seconds : ℕ
  pub approval_ttl_seconds : ℕ
  pub execution_ttl_seconds : ℕ
  pub max_concurrent : ℕ
  pub rate_limit_per_minute : Option ℕ
  pub max_argument_bytes : Option ℕ

-- `WorkflowDetail.from_entry`
unfoldable pub detail_of : WorkflowEntry → Session Db WorkflowDetail
detail_of e = do
  timeout ← or_raise e.limits.timeout_seconds assertion
  approval_ttl ← or_raise e.limits.approval_ttl_seconds assertion
  execution_ttl ← or_raise e.limits.execution_ttl_seconds assertion
  pure (record {
    summary = summary_of e;
    input_schema = e.input_schema;
    max_bytes = e.output.max_bytes;
    include_node_trace = e.output.include_node_trace;
    redacted_paths = length e.output.redact;
    timeout_seconds = timeout;
    approval_ttl_seconds = approval_ttl;
    execution_ttl_seconds = execution_ttl;
    max_concurrent = e.limits.max_concurrent;
    rate_limit_per_minute = e.limits.rate_limit_per_minute;
    max_argument_bytes = e.limits.max_argument_bytes;
  })

unfoldable pub describe_workflow :
    Bool → Option Text → Option Text → Text → Session Db WorkflowDetail
unfolding visible_entry detail_of
describe_workflow enable_v2 principal environment workflow_id = do
  (_, entry) ← visible_entry enable_v2 principal environment workflow_id (codes "describe_workflow")
  detail_of entry

unfoldable pub validate_input :
    JsonSchema → Bool → Option Text → Option Text → Text → Json → Session Db (List ArgumentError)
unfolding visible_entry validate_arguments
validate_input schema enable_v2 principal environment workflow_id arguments = do
  (_, entry) ← visible_entry enable_v2 principal environment workflow_id (codes "validate_input")
  pure (validate_arguments schema entry.input_schema arguments)

abbrev details_of : Option Json → Fields
details_of none = end
details_of (some v) = fields_of v

-- `_with_diff_hint`
unfoldable pub with_diff_hint : Text → PreflightCheck → PreflightCheck
unfolding put fields_of
with_diff_hint workflow_id c =
    if text_eq c.check (codes "definition_unchanged") && text_eq c.status (codes "fail")
    then record c {
      detail = some (
          obj (
            put (codes "diff_hint")
              (str (
                codes "Run `n8n-operator registry diff-live "
                ++ (workflow_id ++ codes "` to see what changed.")))
              (details_of c.detail)));
    }
    else c

unfoldable pub preflight_workflow :
    PreflightPort → Bool → Option Text → Option Text → Text → Session Db PreflightResult
unfolding visible_entry with_diff_hint
preflight_workflow preflight enable_v2 principal environment workflow_id = do
  (_, entry) ←
      visible_entry enable_v2 principal environment workflow_id (codes "preflight_workflow")
  pure (record (preflight entry) {
    checks = map (with_diff_hint workflow_id) (preflight entry).checks;
  })
