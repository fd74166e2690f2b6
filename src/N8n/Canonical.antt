-- ===== src/N8n/Canonical.antt =====
-- The canonical form of a workflow definition and its hash: src/n8n_operator/n8n/canonicalization.py.
-- The NFC form of a text is a parameter. The nodes of a definition are objects, as n8n makes them.
use n8n_operator.Json.Nfc.{nfc_normalize}
use n8n_operator.Audit.Chain.{Digest}
use n8n_operator.Diff.Definitions.{items_of, get_or}
use n8n_operator.Service.Validation.{fields_of}
use n8n_operator.Base.{text_in, [], ◌∷◌, ◌++◌, if◌then◌else◌, codes, List, Text}
use n8n_operator.Json.{
  end, num, field, Json, Items, Fields, canonical_json_bytes, obj, cons, nil, arr,
}

-- `EXCLUSION_ALLOWLIST`
abbrev pub exclusion_allowlist : List Text
exclusion_allowlist = codes "nodes[].position" ∷ (codes "pinData" ∷ [])

-- `_EXCLUDED_NODE_FIELDS`
abbrev pub excluded_node_fields : List Text
excluded_node_fields = codes "position" ∷ []

-- `{k: v for k, v in node.items() if k not in _EXCLUDED_NODE_FIELDS}`
unfoldable pub scoped_fields : Fields → Fields
scoped_fields end = end
scoped_fields (field k v fs) =
    let rest = scoped_fields fs in if text_in k excluded_node_fields then rest else field k v rest

unfoldable pub scoped_nodes : Items → Items
unfolding scoped_fields fields_of
scoped_nodes nil = nil
scoped_nodes (cons n ns) = cons (obj (scoped_fields (fields_of n))) (scoped_nodes ns)

-- `canonical_form`
unfoldable pub canonical_form : (Text → Text) → Fields → Json
unfolding nfc_normalize scoped_nodes get_or items_of
canonical_form nfc raw = nfc_normalize nfc (
    obj (
      field (codes "nodes") (arr (scoped_nodes (items_of (get_or (arr nil) (codes "nodes") raw)))) (
        field (codes "connections") (get_or (obj end) (codes "connections") raw)
          (field (codes "settings") (get_or (obj end) (codes "settings") raw) end))))

-- `canonical_bytes`
unfoldable pub canonical_bytes : (Text → Text) → Fields → Text
unfolding canonical_form canonical_json_bytes
canonical_bytes nfc raw = canonical_json_bytes (
    obj (
      field (codes "canonicalization_version") (num (codes "1"))
        (field (codes "definition") (canonical_form nfc raw) end)))

-- `compute_definition_hash`
unfoldable pub compute_definition_hash : Digest → (Text → Text) → Fields → Text
unfolding canonical_bytes
compute_definition_hash digest nfc raw = codes "sha256:" ++ digest.sha256 (canonical_bytes nfc raw)
