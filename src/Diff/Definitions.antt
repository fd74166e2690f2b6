-- ===== src/Diff/Definitions.antt =====
-- `_Budget`, `_diff_nodes` and `diff_canonical_definitions` of src/n8n_operator/core/definition_diff.py.
-- The id of a node is a string, as n8n makes it; any other value counts as none.
use n8n_operator.Diff.Values.{SameNumber}
use n8n_operator.Service.Handles.{decimal}
use n8n_operator.Service.Validation.{get_field, fields_of}
use n8n_operator.Diff.{
  added, moved, removed, end, field, obj, sorted, ChangeType, generic_diff, concat_map, DiffEntry,
}
pub mod Bounds
use n8n_operator.Base.{
  text_in, not, ◌+◌, keep, false, text_eq, length, ◌++◌, ◌==◌, opt_text_eq, ltb, codes, ◌∷◌, [],
  suc, if◌then◌else◌, Bool, Text, List, Option, ℕ, some, none,
}
use n8n_operator.Json.{end, null, obj, Fields, Items, Json, str, arr, cons, nil}

-- `_Budget`
pub record Budget : Type 0 where
  pub entries : List DiffEntry
  pub total_changes : ℕ

-- `MAX_DIFF_ENTRIES`
abbrev pub max_diff_entries : ℕ
max_diff_entries = 200

-- `_Budget.add`
unfoldable pub add : Budget → DiffEntry → Budget
add b entry = record {
  entries =
      if ltb (length b.entries) max_diff_entries then b.entries ++ (entry ∷ []) else b.entries;
  total_changes = b.total_changes + 1;
}

unfoldable pub add_all : Budget → List DiffEntry → Budget
unfolding add
add_all b [] = b
add_all b (e ∷ es) = add_all (add b e) es

-- `_Budget.truncated`
unfoldable pub is_truncated : Budget → Bool
is_truncated b = ltb (length b.entries) b.total_changes

-- `n["id"]`
unfoldable pub node_id : Json → Option Text
unfolding fields_of get_field
node_id n = elim (get_field (codes "id") (fields_of n)) [ some (str s) ↦ some s | _ ↦ none ]

unfoldable pub ids : Items → List Text
unfolding node_id
ids nil = []
ids (cons n ns) = elim (node_id n) [ some s ↦ s ∷ ids ns | none ↦ ids ns ]

-- `{n["id"]: (i, n) for i, n in enumerate(nodes) if "id" in n}`, looked up: the last of an id counts.
unfoldable pub by_id : Text → ℕ → Items → Option (ℕ × Json)
unfolding node_id
by_id k i nil = none
by_id k i (cons n ns) = elim (by_id k (suc i) ns) [
  | some later ↦ some later
  | none ↦ if opt_text_eq (node_id n) (some k) then some (i, n) else none
]

abbrev value_or_null : Option Json → Json
value_or_null (some v) = v
value_or_null none = null

-- `_node_summary`
node_summary : Json → Json
unfolding fields_of get_field
node_summary n = obj (
    field (codes "type") (value_or_null (get_field (codes "type") (fields_of n)))
      (field (codes "name") (value_or_null (get_field (codes "name") (fields_of n))) end))

node_entry : ChangeType → ℕ → Option Json → Option ℕ → Option ℕ → DiffEntry
unfolding decimal
node_entry change i summary from_index to_index = record {
  path = codes "/nodes/" ++ decimal i;
  change_type = change;
  registered_value = none;
  live_value = none;
  summary = summary;
  from_index = from_index;
  to_index = to_index;
  truncated = false;
}

-- A node that only one side has.
one_sided : ChangeType → Option (ℕ × Json) → List DiffEntry
unfolding node_entry node_summary
one_sided change none = []
one_sided change (some (i, n)) = node_entry change i (some (node_summary n)) none none ∷ []

-- `{k: v for k, v in node.items() if k != "id"}`
unfoldable pub without_id : Fields → Fields
without_id end = end
without_id (field k v fs) =
    let rest = without_id fs in if text_eq k (codes "id") then rest else field k v rest

-- The entry for a node that is elsewhere, where its content has not changed.
unfoldable pub moved_or : List DiffEntry → ℕ → ℕ → List DiffEntry
unfolding node_entry
moved_or (e ∷ changes) i j = e ∷ changes
moved_or [] i j = if i == j then [] else node_entry moved j none (some i) (some j) ∷ []

unfoldable pub matched : SameNumber → Option (ℕ × Json) → Option (ℕ × Json) → List DiffEntry
unfolding generic_diff without_id fields_of moved_or decimal
matched same (some (i, n)) (some (j, m)) =
    moved_or
      (generic_diff same (obj (without_id (fields_of n))) (obj (without_id (fields_of m)))
        (codes "/nodes/" ++ decimal j))
      i j
matched same _ _ = []

-- `_diff_nodes`
unfoldable pub diff_nodes : SameNumber → Items → Items → List DiffEntry
unfolding concat_map sorted ids by_id one_sided matched
diff_nodes same registered live =
    concat_map (λ k. one_sided removed (by_id k 0 registered))
      (sorted (keep (λ k. not (text_in k (ids live))) (ids registered)))
    ++ (concat_map (λ k. one_sided added (by_id k 0 live))
          (sorted (keep (λ k. not (text_in k (ids registered))) (ids live)))
        ++ concat_map (λ k. matched same (by_id k 0 registered) (by_id k 0 live))
            (sorted (keep (λ k. text_in k (ids live)) (ids registered))))

-- `d.get(k, default)`
unfoldable pub get_or : Json → Text → Fields → Json
unfolding get_field
get_or default k fs = elim (get_field k fs) [ some v ↦ v | none ↦ default ]

unfoldable pub items_of : Json → Items
items_of (arr xs) = xs
items_of _ = nil

-- Every change between the two definitions, in the order in which they are found.
unfoldable pub definition_changes : SameNumber → Fields → Fields → List DiffEntry
unfolding diff_nodes generic_diff get_or items_of
definition_changes same registered live =
    diff_nodes same (items_of (get_or (arr nil) (codes "nodes") registered))
      (items_of (get_or (arr nil) (codes "nodes") live))
    ++ (generic_diff same (get_or (obj end) (codes "connections") registered)
          (get_or (obj end) (codes "connections") live) (codes "/connections")
        ++ generic_diff same (get_or (obj end) (codes "settings") registered)
            (get_or (obj end) (codes "settings") live) (codes "/settings"))

-- `(entries, truncated, total_changes)`
unfoldable pub diff_canonical_definitions : SameNumber → Fields → Fields → List DiffEntry × Bool × ℕ
unfolding add_all definition_changes is_truncated
diff_canonical_definitions same registered live =
    let budget =
      add_all (record { entries = []; total_changes = 0 })
        (definition_changes same registered live) in
    (budget.entries, is_truncated budget, budget.total_changes)
