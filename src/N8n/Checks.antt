-- ===== src/N8n/Checks.antt =====
-- The single checks of src/n8n_operator/n8n/preflight.py. The text that `str` makes of a value is a
-- parameter.
use n8n_operator.Redaction.{is_nonempty}
use n8n_operator.Service.Ports.{PreflightCheck}
use n8n_operator.Service.Validation.{fields_of, get_field}
use n8n_operator.Diff.Definitions.{get_or}
use n8n_operator.Service.Store.Rows.{
  read_only, get_method, post_method, SideEffects, WorkflowEntry, TriggerMethod,
}
use n8n_operator.Base.{
  not, text_in, ◌&&◌, false, text_eq, ◌++◌, [], true, is_some, codes, if◌then◌else◌, ◌∷◌, Bool,
  Option, List, Text, none, some,
}
use n8n_operator.Json.{num, end, field, bool, null, Fields, Items, Json, obj, cons, nil, arr, str}

abbrev pub pass : Text → PreflightCheck
pass name = record { check = name; status = codes "pass"; code = none; detail = none }

abbrev pub failure : Text → Text → Option Json → PreflightCheck
failure name code detail = record {
  check = name;
  status = codes "fail";
  code = some code;
  detail = detail;
}

-- `_skip`
abbrev pub skip : Text → PreflightCheck
skip name = record {
  check = name;
  status = codes "skipped";
  code = none;
  detail = some (str (codes "Not evaluated after a prior failure."));
}

abbrev pub remark : Text → Text → Text → Json → PreflightCheck
remark name status code detail = record {
  check = name;
  status = status;
  code = some code;
  detail = some detail;
}

unfoldable pub text_items : List Text → Items
text_items [] = nil
text_items (s ∷ ss) = cons (str s) (text_items ss)

-- `_check_compatible_version`; the supported versions in their order.
unfoldable pub check_compatible_version : Option (List Text) → Option Text → PreflightCheck
check_compatible_version none version =
    remark (codes "compatible_version") (codes "unverifiable") (codes "API_VERSION_UNVERIFIED")
      (str (codes "No supported API version set is configured."))
check_compatible_version (some supported) none =
    remark (codes "compatible_version") (codes "unverifiable") (codes "API_VERSION_UNVERIFIED")
      (str (codes "The instance's API version could not be determined."))
check_compatible_version (some supported) (some version) =
    if text_in version supported
    then pass (codes "compatible_version")
    else remark (codes "compatible_version") (codes "warn") (codes "API_VERSION_UNVERIFIED") (
        obj (
          field (codes "api_version") (str version)
            (field (codes "supported") (arr (text_items supported)) end)))

-- `_check_active`
abbrev pub is_active : Option Json → Bool
is_active (some (bool true)) = true
is_active _ = false

unfoldable pub check_active : Fields → PreflightCheck
check_active live =
    if is_active (get_field (codes "active") live)
    then pass (codes "workflow_active")
    else failure (codes "workflow_active") (codes "WORKFLOW_INACTIVE") none

abbrev pub method_text : TriggerMethod → Text
method_text post_method = codes "POST"
method_text get_method = codes "GET"

-- `value == text`
abbrev pub is_text : Option Json → Text → Bool
is_text (some (str s)) t = text_eq s t
is_text _ t = false

-- `_WEBHOOK_NODE_TYPE`, and the first node of this type
unfoldable pub webhook_node : Items → Option Fields
webhook_node nil = none
webhook_node (cons n ns) =
    if is_text (get_field (codes "type") (fields_of n)) (codes "n8n-nodes-base.webhook")
    then some (fields_of n)
    else webhook_node ns

-- `node.get("parameters", {})`
unfoldable pub parameters_of : Fields → Fields
unfolding get_or fields_of
parameters_of node = fields_of (get_or (obj end) (codes "parameters") node)

unfoldable pub live_path : (Json → Text) → Fields → Text
unfolding get_or
live_path show params = codes "/webhook/" ++ show (get_or (str []) (codes "path") params)

unfoldable pub has_trigger : (Json → Text) → WorkflowEntry → Fields → Bool
unfolding live_path get_field
has_trigger show workflow params =
    text_eq (live_path show params) workflow.trigger_path
    && is_text (get_field (codes "httpMethod") params) (method_text workflow.trigger_method)

abbrev value_or_null : Option Json → Json
value_or_null (some v) = v
value_or_null none = null

-- `_check_trigger_compatibility`, of the webhook node
unfoldable pub check_trigger : (Json → Text) → WorkflowEntry → Option Fields → PreflightCheck
unfolding has_trigger parameters_of live_path get_field
check_trigger show workflow none =
    failure (codes "trigger_compatibility") (codes "TRIGGER_INCOMPATIBLE")
      (some (str (codes "No webhook trigger node found on the live workflow.")))
check_trigger show workflow (some node) =
    if has_trigger show workflow (parameters_of node)
    then pass (codes "trigger_compatibility")
    else failure (codes "trigger_compatibility") (codes "TRIGGER_INCOMPATIBLE") (
        some (
          obj (
            field (codes "registered_path") (str workflow.trigger_path) (
              field (codes "live_path") (str (live_path show (parameters_of node))) (
                field (codes "registered_method") (str (method_text workflow.trigger_method)) (
                  field (codes "live_method")
                    (value_or_null (get_field (codes "httpMethod") (parameters_of node))) end))))))

-- `_check_definition_unchanged`, of the live hash
unfoldable pub check_definition_unchanged : WorkflowEntry → Text → PreflightCheck
check_definition_unchanged workflow live_hash =
    if text_eq live_hash workflow.definition_hash
    then pass (codes "definition_unchanged")
    else failure (codes "definition_unchanged") (codes "DEFINITION_DRIFT") (
        some (
          obj (
            field (codes "registered") (str workflow.definition_hash)
              (field (codes "live") (str live_hash) end))))

-- Whether Python takes a value for true.
unfoldable pub is_truthy : Json → Bool
is_truthy null = false
is_truthy (bool b) = b
is_truthy (num n) = not (text_in n (codes "0" ∷ (codes "0.0" ∷ (codes "-0.0" ∷ []))))
is_truthy (str s) = is_nonempty s
is_truthy (arr nil) = false
is_truthy (arr (cons x xs)) = true
is_truthy (obj end) = false
is_truthy (obj (field k v fs)) = true

-- `key in (node.get("credentials") or {})`; only a string can be a key.
unfoldable pub has_credential : Json → Fields → Bool
unfolding get_or fields_of get_field
has_credential (str s) node =
    is_some (get_field s (fields_of (get_or (obj end) (codes "credentials") node)))
has_credential _ node = false

-- The credential that a node needs and does not have.
unfoldable pub missing_credential : Fields → Option Json
unfolding parameters_of get_or is_truthy has_credential
missing_credential node =
    let required = get_or null (codes "nodeCredentialType") (parameters_of node) in
    if is_truthy required && not (has_credential required node) then some required else none

unfoldable pub note_missing : Option Json → Json → Items → Items
unfolding get_or fields_of
note_missing none n rest = rest
note_missing (some required) n rest =
    cons
      (obj (
        field (codes "node") (get_or (str (codes "?")) (codes "name") (fields_of n))
          (field (codes "credential_type") required end)))
      rest

unfoldable pub missing_credentials : Items → Items
unfolding missing_credential note_missing fields_of
missing_credentials nil = nil
missing_credentials (cons n ns) =
    note_missing (missing_credential (fields_of n)) n (missing_credentials ns)

-- `_check_credential_bindings`, of what is missing
unfoldable pub check_credential_bindings : Items → PreflightCheck
check_credential_bindings nil = pass (codes "credential_bindings")
check_credential_bindings (cons m ms) =
    failure (codes "credential_bindings") (codes "MISSING_NODE_CREDENTIALS")
      (some (obj (field (codes "missing") (arr (cons m ms)) end)))

-- `_credential_validity_check`
abbrev pub credential_validity_check : PreflightCheck
credential_validity_check =
    remark (codes "credential_validity") (codes "unverifiable")
      (codes "CREDENTIAL_VALIDITY_UNVERIFIED")
      (str (codes "Operator verifies that credentials are bound, not that they work."))

abbrev pub is_read_only : SideEffects → Bool
is_read_only read_only = true
is_read_only _ = false

-- `_registry_only_checks`
unfoldable pub registry_only_checks : WorkflowEntry → List PreflightCheck
registry_only_checks workflow =
    (if workflow.has_correlation
      then pass (codes "correlation")
      else remark (codes "correlation") (codes "warn") (codes "NO_EXECUTION_CORRELATION") (
          str (
            codes
              "This workflow returns no execution ID. Reconciliation after an indeterminate dispatch will be manual.")))
    ∷ (if workflow.is_unattended && is_read_only workflow.side_effects
        then remark (codes "unattended_execution") (codes "warn") (codes "UNATTENDED_EXECUTION") (
            str (
              codes
                "This workflow runs with no human in the loop, on the strength of its own approval: none + side_effects: read_only classification."))
          ∷ []
        else [])
