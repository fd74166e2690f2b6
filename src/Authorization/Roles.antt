-- ===== src/Authorization/Roles.antt =====
-- The role-capability table of src/n8n_operator/core/authorization.py. Role and tool names are
-- texts, as in the stored memberships, so an unknown role is possible.
use n8n_operator.Base.{List, [], ◌∷◌, ◌++◌, Text, codes, text_eq, if◌then◌else◌}

abbrev pub read_only_tools : List Text
read_only_tools =
    codes "list_workflows"
    ∷ codes "describe_workflow"
    ∷ codes "get_instance_health"
    ∷ codes "validate_input"
    ∷ codes "preflight_workflow"
    ∷ codes "get_operation"
    ∷ codes "list_operations"
    ∷ codes "get_execution_result"
    ∷ codes "get_execution_log"
    ∷ codes "whoami"
    ∷ codes "list_environments"
    ∷ codes "diff_workflow_definition"
    ∷ codes "get_metrics"
    ∷ codes "list_audit_events"
    ∷ codes "get_approval_status"
    ∷ []

abbrev pub approve_reject_capability : Text
approve_reject_capability = codes "approve_reject_operation"

abbrev pub reconcile_capability : Text
reconcile_capability = codes "reconcile_operation"

abbrev operator_tools : List Text
operator_tools =
    codes "prepare_operation"
    ∷ codes "cancel_operation"
    ∷ codes "execute_operation"
    ∷ codes "request_approval"
    ∷ []

abbrev approver_tools : List Text
approver_tools = codes "request_approval" ∷ approve_reject_capability ∷ []

abbrev admin_tools : List Text
admin_tools =
    codes "prepare_operation"
    ∷ codes "cancel_operation"
    ∷ codes "execute_operation"
    ∷ codes "request_approval"
    ∷ codes "retry_operation"
    ∷ approve_reject_capability
    ∷ reconcile_capability
    ∷ []

abbrev pub viewer : Text
viewer = codes "viewer"

abbrev pub operator : Text
operator = codes "operator"

abbrev pub approver : Text
approver = codes "approver"

abbrev pub admin : Text
admin = codes "admin"

-- `ROLE_CAPABILITIES` behind the test for `VALID_ROLES`: an unknown role has no capability.
unfoldable pub capabilities_for_role : Text → List Text
capabilities_for_role role =
    if text_eq role viewer
    then read_only_tools
    else if text_eq role operator
    then read_only_tools ++ operator_tools
    else if text_eq role approver
    then read_only_tools ++ approver_tools
    else if text_eq role admin
    then read_only_tools ++ admin_tools
    else []
