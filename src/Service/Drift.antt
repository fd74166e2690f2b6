-- ===== src/Service/Drift.antt =====
-- `diff_workflow_definition` of src/n8n_operator/core/service.py: the diff of a registered definition
-- and the live one, with the ids of credentials digested and the values redacted. The salt and the text
-- that `str` makes of a value are parameters.
use n8n_operator.Audit.Chain.{Digest}
use n8n_operator.Diff.{DiffEntry}
use n8n_operator.N8n.Canonical.{compute_definition_hash, canonical_form}
use n8n_operator.Service.Store.Rows.{WorkflowEntry, DefinitionSnapshot, Context, Db}
use n8n_operator.Service.Discovery.{visible_entry}
use n8n_operator.Diff.Definitions.{items_of, get_or, diff_canonical_definitions}
use n8n_operator.Diff.Values.{SameNumber}
use n8n_operator.Json.Nfc.{put}
use n8n_operator.Service.Validation.{get_field, fields_of}
use n8n_operator.Redaction.{scrub_secrets, take, redact}
use n8n_operator.Service.Outcome.{
  instance_unreachable, workflow_missing_on_instance, raise, pure, gets, Session, ◌>>=◌,
}
use n8n_operator.Base.{
  true, map, ◌&&◌, false, not, text_eq, first, ◌++◌, ◌==◌, List, codes, if◌then◌else◌, Option, Bool,
  Text, ℕ, none, some, [], ◌∷◌,
}
use n8n_operator.Json.{null, end, str, field, utf8, Fields, Items, Json, obj, nil, cons, arr}
use n8n_operator.N8n.{Fetched, fetched, missing_on_instance, provider_error}

-- `WorkflowDefinitionDiff`
pub record WorkflowDefinitionDiff : Type 0 where
  pub workflow_id : Text
  pub environment : Option Text
  pub registered_hash : Text
  pub live_hash : Text
  pub changed : Bool
  pub diff : List DiffEntry
  pub diff_available : Bool
  pub truncated : Bool
  pub total_changes : ℕ

-- `_digest` of `_redact_credential_ids`
unfoldable pub digest_id : Digest → (Json → Text) → Text → Json → Json
unfolding take utf8
digest_id digest show salt raw_id =
    str (codes "[REDACTED:" ++ (take 12 (digest.sha256 (utf8 (salt ++ show raw_id))) ++ codes "]"))

-- One reference to a credential, with its id digested if it has one.
unfoldable pub redact_reference : (Json → Json) → Json → Json
unfolding get_field put
redact_reference digested (obj fs) = elim (get_field (codes "id") fs) [
  | none ↦ obj fs
  | some raw_id ↦ obj (put (codes "id") (digested raw_id) fs)
]
redact_reference digested v = v

unfoldable pub redact_references : (Json → Json) → Fields → Fields
unfolding redact_reference
redact_references digested end = end
redact_references digested (field k v fs) =
    field k (redact_reference digested v) (redact_references digested fs)

unfoldable pub redact_node : (Json → Json) → Fields → Fields
unfolding get_field put redact_references
redact_node digested node = elim (get_field (codes "credentials") node) [
  | some (obj credentials) ↦
      put (codes "credentials") (obj (redact_references digested credentials)) node
  | _ ↦ node
]

unfoldable pub redact_nodes : (Json → Json) → Items → Items
unfolding redact_node fields_of
redact_nodes digested nil = nil
redact_nodes digested (cons n ns) =
    cons (obj (redact_node digested (fields_of n))) (redact_nodes digested ns)

-- `_redact_credential_ids`
unfoldable pub redact_credential_ids : (Json → Json) → Fields → Fields
unfolding put redact_nodes get_or items_of
redact_credential_ids digested canonical =
    put (codes "nodes")
      (arr (redact_nodes digested (items_of (get_or (arr nil) (codes "nodes") canonical))))
      canonical

-- `path.rsplit("/", 1)[-1]`, with what follows the last slash so far
unfoldable pub last_segment : Text → Text → Text
last_segment current [] = current
last_segment current (c ∷ s) =
    if c == b'/' then last_segment [] s else last_segment (current ++ (c ∷ [])) s

-- `_redact_diff_value`
unfoldable pub redact_diff_value : (Text → Json → Json) → List Text → Text → Json → Json
unfolding redact last_segment get_or fields_of
redact_diff_value update [] path value = value
redact_diff_value update (p ∷ paths) path null = null
redact_diff_value update (p ∷ paths) path value =
    let name = last_segment [] path in
    get_or value name (fields_of (redact update (obj (field name value end)) (p ∷ paths)))

-- A value that is there, redacted and scrubbed; `None` stays.
unfoldable pub shape_value :
    (Text → Json → Json) → List Text → List Text → Text → Option Json → Option Json
unfolding redact_diff_value scrub_secrets
shape_value update paths secrets path none = none
shape_value update paths secrets path (some value) =
    some (scrub_secrets (redact_diff_value update paths path value) secrets)

unfoldable pub shape_entry : (Text → Json → Json) → List Text → List Text → DiffEntry → DiffEntry
unfolding shape_value
shape_entry update paths secrets e = record e {
  registered_value = shape_value update paths secrets e.path e.registered_value;
  live_value = shape_value update paths secrets e.path e.live_value;
}

-- `definition.get_workflow`
unfoldable pub fetch_definition : Fetched → Session Db Fields
fetch_definition (fetched live) = pure live
fetch_definition missing_on_instance = raise workflow_missing_on_instance
fetch_definition provider_error = raise instance_unreachable

-- `WorkflowDefinitionSnapshotRepository.get`
unfoldable pub get_definition : Text → Text → Db → Option DefinitionSnapshot
get_definition workflow_id definition_hash db =
    first (λ s. text_eq s.workflow_id workflow_id && text_eq s.definition_hash definition_hash)
      db.definitions

abbrev if_v2 : Bool → Option Text → Option Text
if_v2 enable_v2 environment_id = if enable_v2 then environment_id else none

-- What a diff needs besides the database.
pub record DriftPorts : Type 0 where
  pub same : SameNumber
  pub show : Json → Text
  pub update : Text → Json → Json
  pub salt : Text
  pub get_workflow : Text → Fetched

unfoldable pub compare :
    Context
    → DriftPorts
    → List Text
    → Option Text
    → WorkflowEntry
    → Text
    → Fields
    → Option DefinitionSnapshot
    → WorkflowDefinitionDiff
unfolding redact_credential_ids digest_id diff_canonical_definitions canonical_form shape_entry
    compute_definition_hash fields_of
compare ctx ports secrets environment_id entry workflow_id live none =
    let live_hash = compute_definition_hash ctx.digest ctx.digest.nfc live in
    record {
      workflow_id = workflow_id;
      environment = environment_id;
      registered_hash = entry.definition_hash;
      live_hash = live_hash;
      changed = not (text_eq live_hash entry.definition_hash);
      diff = [];
      diff_available = false;
      truncated = false;
      total_changes = 0;
    }
compare ctx ports secrets environment_id entry workflow_id live (some snapshot) =
    let live_hash = compute_definition_hash ctx.digest ctx.digest.nfc live in
    let digested = digest_id ctx.digest ports.show ports.salt in
    let found =
      diff_canonical_definitions ports.same
        (redact_credential_ids digested snapshot.canonical_definition)
        (redact_credential_ids digested (fields_of (canonical_form ctx.digest.nfc live))) in
    record {
      workflow_id = workflow_id;
      environment = environment_id;
      registered_hash = entry.definition_hash;
      live_hash = live_hash;
      changed = not (text_eq live_hash entry.definition_hash);
      diff = map (shape_entry ports.update entry.output.redact secrets) found.0;
      diff_available = true;
      truncated = found.1;
      total_changes = found.2;
    }

unfoldable pub diff_workflow_definition :
    Context
    → DriftPorts
    → List Text
    → Bool
    → Option Text
    → Option Text
    → Text
    → Session Db WorkflowDefinitionDiff
unfolding visible_entry fetch_definition get_definition compare
diff_workflow_definition ctx ports secrets enable_v2 principal environment workflow_id = do
  (environment_id, entry) ←
      visible_entry enable_v2 principal environment workflow_id (codes "diff_workflow_definition")
  live ← fetch_definition (ports.get_workflow entry.n8n_workflow_id)
  snapshot ← gets (get_definition workflow_id entry.definition_hash)
  pure (compare ctx ports secrets (if_v2 enable_v2 environment_id) entry workflow_id live snapshot)
