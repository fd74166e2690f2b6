-- ===== src/Registry/Rules.antt =====
-- The rules R1 to R12 and R15 of src/n8n_operator/registry/loader.py. What `jsonschema` says of a schema
-- and `jsonpath_ng` of a path are parameters.
use n8n_operator.N8n.Checks.{is_read_only, is_text}
use n8n_operator.Redaction.{starts_with}
use n8n_operator.Service.Store.Rows.{no_auth, high, TriggerAuth, Risk, WorkflowEntry}
use n8n_operator.Service.Validation.{fields_of, get_field}
use n8n_operator.Registry.Patterns.{
  matches_secret_ref, matches_definition_hash, matches_id, contains,
}
use n8n_operator.Registry.{
  r15, r10, r5, r7, r3, r1, r4, r6, r11, r8, resolve_workflow_entry, r2, r9, unless, RuleViolation,
  DeclaredEntry, RegistryDocument, resolve_document, RegistryDefaults,
}
use n8n_operator.Json.{bool, Json}
use n8n_operator.Base.{
  leb, ltb, ◌||◌, text_in, ◌&&◌, codes, text_eq, false, ◌++◌, true, if◌then◌else◌, not, ◌∷◌, [],
  Bool, Option, List, Text, ℕ, none, some,
}

-- Whether `check_schema` accepts a schema, and `jsonpath_ng.parse` a path.
pub record Parsers : Type 0 where
  pub is_schema : Json → Bool
  pub is_path : Text → Bool

-- `_check_r1_api_version`
unfoldable pub check_r1_api_version : RegistryDocument → List RuleViolation
check_r1_api_version document =
    if text_eq document.api_version (codes "n8n-operator/v1")
    then []
    else record { rule = r1; workflow_id = none } ∷ []

-- `_check_r2_id`, with the ids seen so far
unfoldable pub check_r2_id : List Text → List DeclaredEntry → List RuleViolation
unfolding matches_id
check_r2_id seen [] = []
check_r2_id seen (d ∷ ds) =
    unless (matches_id d.entry.id) r2 d.entry.id
    ++ (unless (not (text_in d.entry.id seen)) r2 d.entry.id ++ check_r2_id (d.entry.id ∷ seen) ds)

-- `_check_r3_n8n_workflow_id`, with the ids seen so far
unfoldable pub check_r3_n8n_workflow_id : List Text → List DeclaredEntry → List RuleViolation
check_r3_n8n_workflow_id seen [] = []
check_r3_n8n_workflow_id seen (d ∷ ds) =
    unless (not (text_in d.entry.n8n_workflow_id seen)) r3 d.entry.id
    ++ check_r3_n8n_workflow_id (d.entry.n8n_workflow_id ∷ seen) ds

abbrev is_false : Option Json → Bool
is_false (some (bool false)) = true
is_false _ = false

-- `_check_r4_input_schema`
unfoldable pub check_r4_input_schema : Parsers → WorkflowEntry → List RuleViolation
unfolding get_field fields_of
check_r4_input_schema parsers e =
    unless
      (is_text (get_field (codes "type") (fields_of e.input_schema)) (codes "object")
        && (is_false (get_field (codes "additionalProperties") (fields_of e.input_schema))
            && parsers.is_schema e.input_schema))
      r4 e.id

abbrev pub is_high : Risk → Bool
is_high high = true
is_high _ = false

-- `_check_r5_r10_r15_approval_policy`
unfoldable pub check_r5_r10_r15_approval_policy : WorkflowEntry → List RuleViolation
check_r5_r10_r15_approval_policy e =
    unless (not (e.is_unattended && not (is_read_only e.side_effects))) r5 e.id
    ++ (unless (not (is_high e.risk && e.is_unattended)) r10 e.id
        ++ unless (not (e.is_unattended && ltb 1 e.limits.quorum_count)) r15 e.id)

abbrev pub has_no_auth : TriggerAuth → Bool
has_no_auth no_auth = true
has_no_auth _ = false

abbrev pub is_secret_ref : Option Text → Bool
is_secret_ref none = false
is_secret_ref (some ref) = matches_secret_ref ref

-- `_check_r6_secret_ref`
unfoldable pub check_r6_secret_ref : WorkflowEntry → List RuleViolation
check_r6_secret_ref e =
    unless (has_no_auth e.trigger_auth || is_secret_ref e.trigger_secret_ref) r6 e.id

-- `_check_r7_definition_hash`
unfoldable pub check_r7_definition_hash : WorkflowEntry → List RuleViolation
check_r7_definition_hash e = unless (matches_definition_hash e.definition_hash) r7 e.id

-- No scheme and no host: what `_check_r8_trigger_path` lets through
unfoldable pub is_plain_path : Text → Bool
unfolding contains starts_with
is_plain_path path =
    not (contains (codes "://") path)
    && (starts_with (codes "/") path && not (starts_with (codes "//") path))

-- `_check_r8_trigger_path`
unfoldable pub check_r8_trigger_path : WorkflowEntry → List RuleViolation
check_r8_trigger_path e = unless (is_plain_path e.trigger_path) r8 e.id

-- `_check_r9_redact_paths`
unfoldable pub check_r9_redact_paths : Parsers → Text → List Text → List RuleViolation
check_r9_redact_paths parsers id [] = []
check_r9_redact_paths parsers id (path ∷ paths) =
    unless (parsers.is_path path) r9 id ++ check_r9_redact_paths parsers id paths

abbrev pub within : ℕ → Option ℕ → Bool
within ceiling none = true
within ceiling (some limit) = ltb 0 limit && leb limit ceiling

-- `_check_r11_max_argument_bytes`
unfoldable pub check_r11_max_argument_bytes : ℕ → WorkflowEntry → List RuleViolation
check_r11_max_argument_bytes ceiling e =
    unless (within ceiling e.limits.max_argument_bytes) r11 e.id

-- The rules on one entry as it is written and as it is resolved. R12 cannot fail: every trigger is a
-- webhook.
unfoldable pub check_entry : Parsers → ℕ → WorkflowEntry → WorkflowEntry → List RuleViolation
unfolding check_r4_input_schema check_r5_r10_r15_approval_policy check_r6_secret_ref
    check_r7_definition_hash check_r8_trigger_path check_r9_redact_paths
    check_r11_max_argument_bytes
check_entry parsers ceiling raw resolved =
    check_r4_input_schema parsers raw
    ++ (check_r5_r10_r15_approval_policy resolved
        ++ (check_r6_secret_ref raw
            ++ (check_r7_definition_hash raw
                ++ (check_r8_trigger_path raw
                    ++ (check_r9_redact_paths parsers raw.id raw.output.redact
                        ++ check_r11_max_argument_bytes ceiling raw)))))

unfoldable pub check_entries :
    Parsers → ℕ → RegistryDefaults → List DeclaredEntry → List RuleViolation
unfolding check_entry
check_entries parsers ceiling defaults [] = []
check_entries parsers ceiling defaults (d ∷ ds) =
    check_entry parsers ceiling d.entry (resolve_workflow_entry defaults d)
    ++ check_entries parsers ceiling defaults ds

-- `check_rules`, of the document and its resolved entries
unfoldable pub check_rules : Parsers → ℕ → RegistryDocument → List RuleViolation
unfolding check_r1_api_version check_r2_id check_r3_n8n_workflow_id check_entries
check_rules parsers ceiling document =
    check_r1_api_version document
    ++ (check_r2_id [] document.workflows
        ++ (check_r3_n8n_workflow_id [] document.workflows
            ++ check_entries parsers ceiling document.defaults document.workflows))

-- `RegistryValidationError` with what is wrong, or the entries of `LoadedRegistry`.
pub data LoadResult : Type 0 where
  refused : List RuleViolation → LoadResult
  loaded : List WorkflowEntry → LoadResult

unfoldable pub load_result : List RuleViolation → List WorkflowEntry → LoadResult
load_result [] entries = loaded entries
load_result (v ∷ violations) entries = refused (v ∷ violations)

-- `load_registry`, of the document that the file holds
unfoldable pub load_registry : Parsers → ℕ → RegistryDocument → LoadResult
unfolding check_rules resolve_document load_result
load_registry parsers ceiling document =
    load_result (check_rules parsers ceiling document) (resolve_document document)
