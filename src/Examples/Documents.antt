-- ===== src/Examples/Documents.antt =====
-- Registry documents, overlays, definition diffs and preflights on small inputs.
use n8n_operator.Service.Reload.{reload_registry}
use n8n_operator.Examples.Operations.{ctx, db}
use n8n_operator.Service.Outcome.{session_scope}
use n8n_operator.Examples.Log.{plain}
use n8n_operator.Diff.Complete.{generic_diff_iff}
use n8n_operator.N8n.Preflight.Ready.{check-ready, Deployable}
use n8n_operator.Diff.Values.{json_eq}
use n8n_operator.Registry.Sound.{load_registry-Trusted, Trusted}
use n8n_operator.Service.Registry.{last_snapshot, resolve_overlay}
use n8n_operator.Examples.Access.{base_entry}
use n8n_operator.N8n.{fetched, N8nClient}
use n8n_operator.Diff.{generic_diff}
use n8n_operator.Diff.Definitions.{definition_changes, diff_canonical_definitions}
use n8n_operator.Diff.Definitions.Bounds.{diff_canonical_definitions_bounded, Reports}
use n8n_operator.Registry.Strict.{check_overlay_rules-AsStrict, AsStrict}
use n8n_operator.Registry.Overlays.{overlay_row, WorkflowOverlayEntry, check_overlay_rules}
use n8n_operator.Registry.{r8, approval_required, resolve_document, RegistryDocument}
use n8n_operator.Service.Store.Rows.{RegistrySnapshot, Db, WorkflowEntry}
use n8n_operator.Json.{null, nil, cons, end, num, arr, bool, field, str, obj, Fields, Json}
use n8n_operator.Registry.Rules.{refused, Parsers, load_registry}
use n8n_operator.N8n.Preflight.{check}
use n8n_operator.Base.{
  Option, Memᴰ, false, ◌↔◌, refl, ◌≡◌, codes, text_eq, true, Text, [], ◌∷◌, none, some,
}

abbrev wide : Parsers
wide = record { is_schema = λ s. true; is_path = λ p. true }

abbrev closed_schema : Json
closed_schema = obj (
    field (codes "type") (str (codes "object"))
      (field (codes "additionalProperties") (bool false) end))

abbrev close_entry : WorkflowEntry
close_entry = record base_entry {
  definition_hash = codes "sha256:0123456789abcdef0123456789abcdef0123456789abcdef0123456789abcdef";
  trigger_path = codes "/webhook/close";
  input_schema = closed_schema;
}

abbrev close_document : RegistryDocument
close_document = record {
  api_version = codes "n8n-operator/v1";
  defaults = record {
    approval = approval_required;
    timeout_seconds = 60;
    approval_ttl_seconds = 900;
    execution_ttl_seconds = 300;
  };
  workflows = record { approval = none; entry = close_entry } ∷ [];
}

load_registry-Trusted_example :
    (resolve_document close_document ≡ resolve_document close_document)
    × Trusted 65536 (resolve_document close_document)
unfolding load_registry text_eq n8n_operator.Registry.Patterns.matches_definition_hash
    n8n_operator.Registry.Rules.is_plain_path
load_registry-Trusted_example =
    load_registry-Trusted wide 65536 close_document (resolve_document close_document) refl

-- A path that another host's name can begin.
abbrev foreign_document : RegistryDocument
foreign_document = record close_document {
  workflows =
      record {
        approval = none;
        entry = record close_entry { trigger_path = codes "@evil.example/x" };
      }
      ∷ [];
}

foreign_document_is_refused :
    load_registry wide 65536 foreign_document
    ≡ refused (record { rule = r8; workflow_id = some (codes "close") } ∷ [])
unfolding load_registry text_eq n8n_operator.Registry.Patterns.matches_definition_hash
    n8n_operator.Registry.Rules.is_plain_path
foreign_document_is_refused = refl

abbrev strict_overlay : WorkflowOverlayEntry
strict_overlay = record {
  workflow_id = codes "close";
  n8n_workflow_id = none;
  definition_hash = none;
  trigger_path = none;
  trigger_secret_ref = none;
  requires_approval = true;
  limits_override = (codes "timeout_seconds", 10) ∷ ((codes "quorum_count", 2) ∷ []);
}

check_overlay_rules-AsStrict_example :
    AsStrict close_entry
      (resolve_overlay close_entry (some (overlay_row (codes "prod") strict_overlay)))
unfolding check_overlay_rules text_eq
check_overlay_rules-AsStrict_example =
    check_overlay_rules-AsStrict (codes "close" ∷ []) (close_entry ∷ []) (strict_overlay ∷ [])
      strict_overlay close_entry (codes "prod") refl (Memᴰ.head refl) refl

-- The same path is not refused in an overlay.
foreign_overlay_is_accepted :
    check_overlay_rules
      (codes "close" ∷ [])
      (close_entry ∷ [])
      (record strict_overlay { trigger_path = some (codes "@evil.example/x") } ∷ [])
    ≡ []
unfolding check_overlay_rules text_eq
foreign_overlay_is_accepted = refl

abbrev settings_of : Text → Fields
settings_of order =
    field (codes "settings") (obj (field (codes "executionOrder") (str order) end)) end

diff_canonical_definitions_bounded_example :
    Reports
      (definition_changes text_eq (settings_of (codes "v0")) (settings_of (codes "v1")))
      (diff_canonical_definitions text_eq (settings_of (codes "v0")) (settings_of (codes "v1")))
diff_canonical_definitions_bounded_example =
    diff_canonical_definitions_bounded text_eq (settings_of (codes "v0")) (settings_of (codes "v1"))

one_change :
    (diff_canonical_definitions text_eq (settings_of (codes "v0")) (settings_of (codes "v1"))).2 ≡ 1
unfolding diff_canonical_definitions text_eq
one_change = refl

abbrev ordered : Text → Text → Json
ordered a b = obj (field a (num (codes "1")) (field b (num (codes "2")) end))

generic_diff_iff_example :
    (generic_diff text_eq
        (obj (settings_of (codes "v0")))
        (obj (settings_of (codes "v1")))
        (codes "/x")
      ≡ [])
    ↔ (json_eq text_eq (obj (settings_of (codes "v0"))) (obj (settings_of (codes "v1"))) ≡ true)
unfolding n8n_operator.Diff.Complete.IsPython
generic_diff_iff_example =
    generic_diff_iff text_eq (obj (settings_of (codes "v0"))) (obj (settings_of (codes "v1")))
      (codes "/x") (refl, (refl, tt, tt), tt)

-- A node without an id is not looked at: the diff is empty, although the definitions differ.
abbrev nodes_of : Json → Fields
nodes_of n = field (codes "nodes") (arr (cons n nil)) end

a_node_without_id_is_passed_over :
    (diff_canonical_definitions text_eq
      (nodes_of (obj (settings_of (codes "v0"))))
      (nodes_of (obj (settings_of (codes "v1"))))).2
    ≡ 0
unfolding diff_canonical_definitions text_eq
a_node_without_id_is_passed_over = refl

abbrev live_definition : Fields
live_definition = field (codes "active") (bool true) (
    field (codes "nodes")
      (arr (
        cons
          (obj (
            field (codes "type") (str (codes "n8n-nodes-base.webhook")) (
              field (codes "parameters")
                (obj (
                  field (codes "path") (str (codes "close"))
                    (field (codes "httpMethod") (str (codes "POST")) end)))
                end)))
          nil))
      end)

abbrev answering : N8nClient
answering = record {
  is_healthy = true;
  api_version = none;
  get_workflow = λ id. fetched live_definition;
}

abbrev shown : Json → Text
shown (str s) = s
shown _ = []

check-ready_example :
    ((check shown plain (λ t. t) answering none close_entry).ready ≡ true)
    ↔ Deployable shown plain (λ t. t) answering none close_entry
check-ready_example = check-ready shown plain (λ t. t) answering none close_entry

-- A registry file that goes back to what it was: the snapshot that it had is found and reported, but the
-- one loaded after it stays the active one.
abbrev other_document : RegistryDocument
other_document = record close_document {
  workflows = record { approval = none; entry = record close_entry { owner = codes "audit" } } ∷ [];
}

abbrev owner_of : RegistryDocument → Json
owner_of document = elim document.workflows [ [] ↦ null | d ∷ ds ↦ str d.entry.owner ]

abbrev load_into : Text → RegistryDocument → Db → Db
load_into actor document d =
    session_scope (reload_registry ctx wide 65536 owner_of actor document) d

abbrev unloaded : Db
unloaded = record db { snapshots = [] }

abbrev first_owner : Option RegistrySnapshot → Option Text
first_owner none = none
first_owner (some s) = elim s.workflows [ [] ↦ none | e ∷ es ↦ some e.owner ]

going_back_does_not_reactivate :
    first_owner (
      last_snapshot
        (load_into (codes "local") close_document (
          load_into
            (codes "local")
            other_document
            (load_into (codes "local") close_document unloaded))).snapshots)
    ≡ some (codes "audit")
unfolding session_scope reload_registry text_eq
    n8n_operator.Registry.Patterns.matches_definition_hash n8n_operator.Registry.Rules.is_plain_path
    n8n_operator.Service.Outcome.◌>>=◌ n8n_operator.Service.Outcome.gets
    n8n_operator.Service.Store.Logs.write_audit n8n_operator.Service.Outcome.pure
    n8n_operator.Json.Nfc.canonicalize_arguments
going_back_does_not_reactivate = refl
