-- ===== src/Diff/Values.antt =====
-- The values that a definition diff compares: Python's `==` on them, and the text and the bound of
-- `_bounded` in src/n8n_operator/core/definition_diff.py.
use n8n_operator.Service.Handles.{decimal}
use n8n_operator.Redaction.{decode_from, take}
use n8n_operator.Service.Validation.{get_field}
use n8n_operator.Json.{
  nil, null, cons, Items, obj, arr, str, utf8, num, bool, sort_keys, quote, end, field, Json,
  Fields,
}
use n8n_operator.Base.{
  Option, none, some, text_eq, length, leb, ◌++◌, if◌then◌else◌, ◌&&◌, ◌∷◌, text_in, false, [],
  List, true, codes, Bool, Text, ℕ,
}

abbrev pub keys : Fields → List Text
keys end = []
keys (field k v fs) = k ∷ keys fs

-- Whether two printed numbers are equal, as Python compares an `int`, a `float` and a `bool`.
abbrev pub SameNumber : Type 0
SameNumber = Text → Text → Bool

number_of_bool : Bool → Text
number_of_bool true = codes "1"
number_of_bool false = codes "0"

-- Every key of the second `dict` is one of the first.
unfoldable pub keys_in : Fields → Fields → Bool
keys_in end fs = true
keys_in (field k v gs) fs = text_in k (keys fs) && keys_in gs fs

-- `k in d and p(d[k])`
abbrev pub found_and : Option Json → (Json → Bool) → Bool
found_and none p = false
found_and (some w) p = p w

-- Python's `==`. Two `dict` values are equal if they have the same pairs, in any order.
unfoldable mutual
  unfolding keys_in get_field number_of_bool

  pub json_eq : SameNumber → Json → Json → Bool
  json_eq same null null = true
  json_eq same (bool true) (bool true) = true
  json_eq same (bool false) (bool false) = true
  json_eq same (bool b) (num n) = same (number_of_bool b) n
  json_eq same (num n) (bool b) = same n (number_of_bool b)
  json_eq same (num m) (num n) = same m n
  json_eq same (str s) (str t) = text_eq s t
  json_eq same (arr xs) (arr ys) = items_eq same xs ys
  json_eq same (obj fs) (obj gs) = fields_in same fs gs && keys_in gs fs
  json_eq same _ _ = false

  pub items_eq : SameNumber → Items → Items → Bool
  items_eq same nil nil = true
  items_eq same (cons x xs) (cons y ys) = json_eq same x y && items_eq same xs ys
  items_eq same _ _ = false

  -- Every pair of the first `dict` has an equal one in the second.
  pub fields_in : SameNumber → Fields → Fields → Bool
  fields_in same end gs = true
  fields_in same (field k v fs) gs =
      found_and (get_field k gs) (λ w. json_eq same v w) && fields_in same fs gs

-- `json.dumps` with its own separators, of a value whose keys are in order.
mutual
  unfolding quote

  spaced : Json → Text
  spaced null = codes "null"
  spaced (bool true) = codes "true"
  spaced (bool false) = codes "false"
  spaced (num n) = n
  spaced (str s) = quote s
  spaced (arr xs) = b'[' ∷ (spaced_items xs ++ b']' ∷ [])
  spaced (obj fs) = b'{' ∷ (spaced_fields fs ++ b'}' ∷ [])

  spaced_items : Items → Text
  spaced_items nil = []
  spaced_items (cons x nil) = spaced x
  spaced_items (cons x (cons y ys)) = spaced x ++ (codes ", " ++ spaced_items (cons y ys))

  spaced_fields : Fields → Text
  spaced_fields end = []
  spaced_fields (field k v end) = quote k ++ (codes ": " ++ spaced v)
  spaced_fields (field k v (field j w fs)) =
      quote k ++ (codes ": " ++ (spaced v ++ (codes ", " ++ spaced_fields (field j w fs))))

-- `MAX_VALUE_BYTES`
abbrev pub max_value_bytes : ℕ
max_value_bytes = 4096

-- `_bounded`: the value, or a preview of its text and its size where that is larger than the bound.
unfoldable pub bounded : Json → Json × Bool
unfolding spaced sort_keys take decode_from utf8
bounded value =
    let encoded = utf8 (spaced (sort_keys value)) in
    if leb (length encoded) max_value_bytes then (value, false) else (
      str (
          decode_from 0 0 (take max_value_bytes encoded)
          ++ (8230 ∷ (codes " (" ++ (decimal (length encoded) ++ codes " bytes, truncated)")))),
      true,
    )
