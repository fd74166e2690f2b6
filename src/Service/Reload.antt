-- ===== src/Service/Reload.antt =====
-- Loading a registry and an environment's overlays into the database: `reload_registry` and
-- `reload_overlay` of src/n8n_operator/core/service.py. What `model_dump` makes of a document is a
-- parameter. A `RegistryValidationError` is a `RegistryUnavailableError`.
use n8n_operator.Json.Nfc.{canonicalize_arguments}
use n8n_operator.Service.Registry.{last_snapshot, require_active_snapshot}
use n8n_operator.Service.Store.Logs.{write_audit}
use n8n_operator.Json.{num, end, bool, field, str, null, obj, Json}
use n8n_operator.Service.Handles.{decimal}
use n8n_operator.Registry.{RegistryDocument, RuleViolation}
use n8n_operator.Registry.Overlays.{WorkflowOverlayEntry, overlay_row, check_overlay_rules}
use n8n_operator.Service.Store.Rows.{
  WorkflowBinding, RegistrySnapshot, Db, WorkflowEntry, Context, Overlay,
}
use n8n_operator.Service.Outcome.{
  gets, raise_if, registry_unavailable, pure, ok, raise, Session, ◌>>=◌, ◌>>◌,
}
use n8n_operator.Base.{
  map, text_in, not, keep, codes, ◌&&◌, false, ◌++◌, length, first, text_eq, true, Bool,
  if◌then◌else◌, Option, Text, List, ℕ, none, some, [], ◌∷◌,
}
use n8n_operator.Registry.Rules.{Parsers, LoadResult, load_registry, refused, loaded}

-- `get_by_content_hash`
unfoldable pub get_by_content_hash : Text → Db → Option RegistrySnapshot
get_by_content_hash content_hash db = first (λ s. text_eq s.content_hash content_hash) db.snapshots

-- `RegistrySnapshotRepository.create`
unfoldable pub create_snapshot : Context → Text → List WorkflowEntry → Session Db RegistrySnapshot
create_snapshot ctx content_hash entries db =
    let snapshot : RegistrySnapshot = record {
      id = ctx.new_ulid (length db.snapshots);
      content_hash = content_hash;
      workflows = entries;
    } in
    ok snapshot (record db { snapshots = db.snapshots ++ (snapshot ∷ []) })

abbrev new_binding : Context → Text → ℕ → WorkflowEntry → WorkflowBinding
new_binding ctx snapshot_id n e = record {
  id = ctx.new_ulid n;
  snapshot_id = snapshot_id;
  workflow_id = e.id;
  n8n_workflow_id = e.n8n_workflow_id;
  definition_hash = e.definition_hash;
  side_effects = e.side_effects;
  is_unattended = e.is_unattended;
  input_schema = e.input_schema;
}

-- The enabled entries, one after the other.
unfoldable pub bind_all :
    Context → Text → List WorkflowEntry → List WorkflowBinding → List WorkflowBinding
bind_all ctx snapshot_id [] bindings = bindings
bind_all ctx snapshot_id (e ∷ es) bindings = bind_all ctx snapshot_id es (
    if e.enabled
    then bindings ++ (new_binding ctx snapshot_id (length bindings) e ∷ [])
    else bindings)

-- `WorkflowBindingRepository.create` for each entry that is enabled. The snapshot is new and the ids of
-- the entries are distinct, so that no two bindings have one key.
unfoldable pub create_bindings : Context → Text → List WorkflowEntry → Session Db (Unit {0})
unfolding bind_all
create_bindings ctx snapshot_id entries db =
    ok tt (record db { bindings = bind_all ctx snapshot_id entries db.bindings })

abbrev id_or_null : Option RegistrySnapshot → Json
id_or_null none = null
id_or_null (some s) = str s.id

abbrev reload_detail : Text → Bool → Option RegistrySnapshot → Json
reload_detail content_hash reused previous = obj (
    field (codes "content_hash") (str content_hash) (
      field (codes "reused_existing") (bool reused)
        (field (codes "previous_snapshot_id") (id_or_null previous) end)))

unfoldable pub audit_reload :
    Context
    → Text
    → Text
    → Bool
    → Option RegistrySnapshot
    → RegistrySnapshot
    → Session Db (Unit {0})
audit_reload ctx actor content_hash reused previous snapshot =
    write_audit ctx actor (codes "registry.reloaded") (codes "registry_snapshot") snapshot.id
      (codes "allowed") (reload_detail content_hash reused previous)

-- What becomes of the entries that have loaded, for the snapshot that has their hash, if any.
unfoldable pub keep_or_create :
    Context
    → Text
    → Text
    → List WorkflowEntry
    → Option RegistrySnapshot
    → Option RegistrySnapshot
    → Session Db (RegistrySnapshot × Bool)
unfolding audit_reload create_snapshot create_bindings
keep_or_create ctx actor content_hash entries previous (some existing) = do
  audit_reload ctx actor content_hash true previous existing
  pure (existing, true)
keep_or_create ctx actor content_hash entries previous none = do
  snapshot ← create_snapshot ctx content_hash entries
  create_bindings ctx snapshot.id entries
  audit_reload ctx actor content_hash false previous snapshot
  pure (snapshot, false)

unfoldable pub store_registry :
    Context → Text → Text → LoadResult → Session Db (RegistrySnapshot × Bool)
unfolding keep_or_create get_by_content_hash
store_registry ctx actor content_hash (refused violations) = raise registry_unavailable
store_registry ctx actor content_hash (loaded entries) = do
  previous ← gets (λ db. last_snapshot db.snapshots)
  existing ← gets (get_by_content_hash content_hash)
  keep_or_create ctx actor content_hash entries previous existing

-- `reload_registry`, of the document that the file holds
unfoldable pub reload_registry :
    Context
    → Parsers
    → ℕ
    → (RegistryDocument → Json)
    → Text
    → RegistryDocument
    → Session Db (RegistrySnapshot × Bool)
unfolding store_registry load_registry
reload_registry ctx parsers ceiling dump actor document =
    store_registry ctx actor
      (codes "sha256:" ++ ctx.digest.sha256 (canonicalize_arguments ctx.digest.nfc (dump document)))
      (load_registry parsers ceiling document)

-- `WorkflowEnvironmentOverlayRepository.upsert`
abbrev is_overlay_of : Text → Text → Overlay → Bool
is_overlay_of workflow_id environment_id o =
    text_eq o.workflow_id workflow_id && text_eq o.environment_id environment_id

unfoldable pub put_overlay : Overlay → List Overlay → List Overlay
put_overlay new [] = new ∷ []
put_overlay new (o ∷ os) =
    let rest = put_overlay new os in
    if is_overlay_of new.workflow_id new.environment_id o then new ∷ os else o ∷ rest

unfoldable pub put_overlays : Text → List WorkflowOverlayEntry → List Overlay → List Overlay
unfolding put_overlay overlay_row
put_overlays environment_id [] rows = rows
put_overlays environment_id (o ∷ os) rows =
    put_overlays environment_id os (put_overlay (overlay_row environment_id o) rows)

abbrev workflow_ids : List WorkflowOverlayEntry → List Text
workflow_ids [] = []
workflow_ids (o ∷ os) = o.workflow_id ∷ workflow_ids os

-- The environment's rows for the workflows that the file no longer names go; then the file's are put.
unfoldable pub replace_overlays : Text → List WorkflowOverlayEntry → Session Db (Unit {0})
unfolding put_overlays
replace_overlays environment_id overlays db = ok tt (record db {
  overlays = put_overlays environment_id overlays (
      keep
        (λ o. not (
          text_eq o.environment_id environment_id
          && not (text_in o.workflow_id (workflow_ids overlays))))
        db.overlays);
})

abbrev is_clean : List RuleViolation → Bool
is_clean [] = true
is_clean (v ∷ violations) = false

-- `reload_overlay`, of the overlays that the file at `source_path` holds
unfoldable pub reload_overlay :
    Context
    → Text
    → Text
    → Text
    → List WorkflowOverlayEntry
    → Session Db (List WorkflowOverlayEntry)
unfolding replace_overlays check_overlay_rules decimal
reload_overlay ctx actor source_path environment_id overlays = do
  snapshot ← require_active_snapshot
  raise_if
      (not (
        is_clean
          (check_overlay_rules (map (λ e. e.id) snapshot.workflows) snapshot.workflows overlays)))
      registry_unavailable
  replace_overlays environment_id overlays
  write_audit ctx actor (codes "overlay.reloaded") (codes "environment") environment_id
      (codes "allowed")
      (obj (
        field (codes "source_path") (str source_path)
          (field (codes "overlay_count") (num (decimal (length overlays))) end)))
  pure overlays
