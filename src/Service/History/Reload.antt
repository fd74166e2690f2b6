-- ===== src/Service/History/Reload.antt =====
-- Loading a registry or an environment's overlays leaves every operation as it is.
use n8n_operator.Service.History.UseCases.{require_active_snapshot-SafeAt}
use n8n_operator.Service.History.Transitions.{write_audit-SafeAt}
use n8n_operator.Json.{Json}
use n8n_operator.Service.History.Rows.{Follows-refl, IsKeyed}
use n8n_operator.Registry.Overlays.{WorkflowOverlayEntry}
use n8n_operator.Registry.{RegistryDocument}
use n8n_operator.Service.Registry.{require_active_snapshot}
use n8n_operator.Service.History.Safe.{
  SafeAt-pure, SafeAt-raise_if, SafeAt-gets, SafeAt-raise, SafeAt-bind, Anything, SafeAt,
}
use n8n_operator.Service.Reload.{
  audit_reload, store_registry, keep_or_create, replace_overlays, create_snapshot, reload_registry,
  create_bindings, reload_overlay,
}
use n8n_operator.Service.Store.Rows.{RegistrySnapshot, WorkflowEntry, Db, Context}
use n8n_operator.Base.{refl, Option, List, Text, ℕ, none, some}
use n8n_operator.Registry.Rules.{LoadResult, Parsers, refused, loaded}

module _ (ctx : Context) where
  create_snapshot-SafeAt :
      (d : Db) (content_hash : Text) (entries : List WorkflowEntry)
      → IsKeyed d.operations
      → SafeAt ctx d Anything (create_snapshot ctx content_hash entries)
  unfolding create_snapshot SafeAt
  create_snapshot-SafeAt d content_hash entries k =
      (record { keyed = k; rows = Follows-refl d.operations; log = refl }, tt)

  create_bindings-SafeAt :
      (d : Db) (snapshot_id : Text) (entries : List WorkflowEntry)
      → IsKeyed d.operations
      → SafeAt ctx d Anything (create_bindings ctx snapshot_id entries)
  unfolding create_bindings SafeAt
  create_bindings-SafeAt d snapshot_id entries k =
      (record { keyed = k; rows = Follows-refl d.operations; log = refl }, tt)

  replace_overlays-SafeAt :
      (d : Db) (environment_id : Text) (overlays : List WorkflowOverlayEntry)
      → IsKeyed d.operations
      → SafeAt ctx d Anything (replace_overlays environment_id overlays)
  unfolding replace_overlays SafeAt
  replace_overlays-SafeAt d environment_id overlays k =
      (record { keyed = k; rows = Follows-refl d.operations; log = refl }, tt)

  keep_or_create-SafeAt :
      (d : Db) (actor content_hash : Text) (entries : List WorkflowEntry)
      (previous existing : Option RegistrySnapshot)
      → IsKeyed d.operations
      → SafeAt ctx d Anything (keep_or_create ctx actor content_hash entries previous existing)
  unfolding keep_or_create audit_reload
  keep_or_create-SafeAt d actor content_hash entries previous (some existing) k =
      SafeAt-bind ctx Anything Anything d _ _ (write_audit-SafeAt ctx d _ _ _ _ _ _ k)
        λ _ d1 e1 _. SafeAt-pure ctx d1 Anything _ e1.keyed tt
  keep_or_create-SafeAt d actor content_hash entries previous none k =
      SafeAt-bind ctx Anything Anything d _ _ (create_snapshot-SafeAt d content_hash entries k)
        λ snapshot d1 e1 _.
          SafeAt-bind ctx Anything Anything d1 _ _
            (create_bindings-SafeAt d1 snapshot.id entries e1.keyed)
            λ _ d2 e2 _.
              SafeAt-bind ctx Anything Anything d2 _ _
                (write_audit-SafeAt ctx d2 _ _ _ _ _ _ e2.keyed)
                λ _ d3 e3 _. SafeAt-pure ctx d3 Anything _ e3.keyed tt

  store_registry-SafeAt :
      (d : Db) (actor content_hash : Text) (result : LoadResult)
      → IsKeyed d.operations
      → SafeAt ctx d Anything (store_registry ctx actor content_hash result)
  unfolding store_registry
  store_registry-SafeAt d actor content_hash (refused violations) k = SafeAt-raise ctx d Anything _
  store_registry-SafeAt d actor content_hash (loaded entries) k =
      SafeAt-gets ctx d Anything _ _
        (SafeAt-gets ctx d Anything _ _ (keep_or_create-SafeAt d actor content_hash entries _ _ k))

  pub reload_registry-SafeAt :
      (d : Db) (parsers : Parsers) (ceiling : ℕ) (dump : RegistryDocument → Json) (actor : Text)
      (document : RegistryDocument)
      → IsKeyed d.operations
      → SafeAt ctx d Anything (reload_registry ctx parsers ceiling dump actor document)
  unfolding reload_registry
  reload_registry-SafeAt d parsers ceiling dump actor document k =
      store_registry-SafeAt d actor _ _ k

  pub reload_overlay-SafeAt :
      (d : Db) (actor source_path environment_id : Text) (overlays : List WorkflowOverlayEntry)
      → IsKeyed d.operations
      → SafeAt ctx d Anything (reload_overlay ctx actor source_path environment_id overlays)
  unfolding reload_overlay require_active_snapshot
  reload_overlay-SafeAt d actor source_path environment_id overlays k =
      SafeAt-bind ctx Anything Anything d _ _ (require_active_snapshot-SafeAt ctx d k)
        λ snapshot d1 e1 _. SafeAt-raise_if ctx d1 Anything _ _ _ λ _.
          SafeAt-bind ctx Anything Anything d1 _ _
            (replace_overlays-SafeAt d1 environment_id overlays e1.keyed)
            λ _ d2 e2 _.
              SafeAt-bind ctx Anything Anything d2 _ _
                (write_audit-SafeAt ctx d2 _ _ _ _ _ _ e2.keyed)
                λ _ d3 e3 _. SafeAt-pure ctx d3 Anything _ e3.keyed tt
