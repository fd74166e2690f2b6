-- ===== src/Diff.antt =====
-- The structural diff of two workflow definitions: src/n8n_operator/core/definition_diff.py. The
-- entries stand in the order in which the source gives them to `_Budget.add`.
use n8n_operator.Service.Validation.{get_field}
use n8n_operator.Service.Handles.{decimal}
use n8n_operator.Json.{end, cons, nil, Items, field, Fields, arr, obj, Json, text_lt}
use n8n_operator.Diff.Values.{keys, SameNumber, bounded, json_eq}
pub mod Values
pub mod Definitions
pub mod Silent
pub mod Complete
use n8n_operator.Base.{
  suc, text_eq, ◌||◌, none, Bool, if◌then◌else◌, some, [], Option, ◌∷◌, ◌++◌, List, Text, ℕ,
}

-- `change_type`
pub data ChangeType : Type 0 where
  added : ChangeType
  removed : ChangeType
  modified : ChangeType
  moved : ChangeType

-- `DiffEntry`
pub record DiffEntry : Type 0 where
  pub path : Text
  pub change_type : ChangeType
  pub registered_value : Option Json
  pub live_value : Option Json
  pub summary : Option Json
  pub from_index : Option ℕ
  pub to_index : Option ℕ
  pub truncated : Bool

unfoldable pub added_value : Text → Json → DiffEntry
unfolding bounded
added_value path v = record {
  path = path;
  change_type = added;
  registered_value = none;
  live_value = some (bounded v).0;
  summary = none;
  from_index = none;
  to_index = none;
  truncated = (bounded v).1;
}

unfoldable pub removed_value : Text → Json → DiffEntry
unfolding bounded
removed_value path v = record {
  path = path;
  change_type = removed;
  registered_value = some (bounded v).0;
  live_value = none;
  summary = none;
  from_index = none;
  to_index = none;
  truncated = (bounded v).1;
}

unfoldable pub modified_value : Text → Json → Json → DiffEntry
unfolding bounded
modified_value path v w = record {
  path = path;
  change_type = modified;
  registered_value = some (bounded v).0;
  live_value = some (bounded w).0;
  summary = none;
  from_index = none;
  to_index = none;
  truncated = (bounded v).1 || (bounded w).1;
}

-- `f"{path}/{key}"`
abbrev pub child_path : Text → Text → Text
child_path path key = path ++ (b'/' ∷ key)

-- A key in the sorted list of the keys so far, once.
unfoldable pub insert_key : Text → List Text → List Text
unfolding text_lt
insert_key k [] = k ∷ []
insert_key k (j ∷ ks) =
    let later = insert_key k ks in
    if text_eq k j then j ∷ ks else if text_lt k j then k ∷ (j ∷ ks) else j ∷ later

-- `sorted(set(ks))`
unfoldable pub sorted : List Text → List Text
unfolding insert_key
sorted [] = []
sorted (k ∷ ks) = insert_key k (sorted ks)

unfoldable pub concat_map : (Text → List DiffEntry) → List Text → List DiffEntry
concat_map f [] = []
concat_map f (k ∷ ks) = f k ++ concat_map f ks

-- One key of two `dict` values: what is at it on either side, and the diff where it is on both.
unfoldable pub diff_at : Text → Option Json → Option Json → (Json → List DiffEntry) → List DiffEntry
unfolding added_value removed_value
diff_at path none none inner = []
diff_at path none (some w) inner = added_value path w ∷ []
diff_at path (some v) none inner = removed_value path v ∷ []
diff_at path (some v) (some w) inner = inner w

-- What differs otherwise: one entry for the whole.
unfoldable pub leaf_diff : SameNumber → Json → Json → Text → List DiffEntry
unfolding modified_value json_eq
leaf_diff same v w path = if json_eq same v w then [] else modified_value path v w ∷ []

-- `_generic_diff`
unfoldable mutual
  unfolding json_eq leaf_diff diff_at concat_map sorted decimal added_value removed_value get_field

  pub generic_diff : SameNumber → Json → Json → Text → List DiffEntry
  generic_diff same (obj fs) (obj gs) path =
      if json_eq same (obj fs) (obj gs)
      then []
      else concat_map
          (λ k.
            diff_at (child_path path k) (get_field k fs) (get_field k gs)
              (λ w. field_diff same fs k w (child_path path k)))
          (sorted (keys fs ++ keys gs))
  generic_diff same (arr xs) (arr ys) path =
      if json_eq same (arr xs) (arr ys) then [] else items_diff same xs ys 0 path
  generic_diff same v w path = leaf_diff same v w path

  -- The diff of the value at a key of the registered `dict` and a live value.
  pub field_diff : SameNumber → Fields → Text → Json → Text → List DiffEntry
  field_diff same end k w path = []
  field_diff same (field j v fs) k w path =
      if text_eq j k then generic_diff same v w path else field_diff same fs k w path

  -- Index by index.
  pub items_diff : SameNumber → Items → Items → ℕ → Text → List DiffEntry
  items_diff same nil nil i path = []
  items_diff same nil (cons y ys) i path =
      added_value (child_path path (decimal i)) y ∷ items_diff same nil ys (suc i) path
  items_diff same (cons x xs) nil i path =
      removed_value (child_path path (decimal i)) x ∷ items_diff same xs nil (suc i) path
  items_diff same (cons x xs) (cons y ys) i path =
      generic_diff same x y (child_path path (decimal i)) ++ items_diff same xs ys (suc i) path
