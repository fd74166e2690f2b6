-- ===== src/Json.antt =====
-- JSON values as Python holds them, and the one canonical serialization: `json.dumps` with sorted
-- keys, compact separators and no ASCII escaping, encoded in UTF-8
-- (`_canonical_json_bytes` of src/n8n_operator/audit/chain.py; Nfc has that of
-- src/n8n_operator/registry/loader.py, which normalizes the strings first). A number is kept as the text that `json.dumps` prints for it.
pub mod Utf8
pub mod Nfc
unfoldable pub use Utf8.{utf8}
pub use Utf8.{utf8-ascii}
use n8n_operator.Base.{
  ℕ, ◌+◌, ◌-◌, ◌≡◌, refl, Bool, true, false, ◌&&◌, ◌||◌, List, [], ◌∷◌, ◌++◌, Text, codes, ltb,
  ◌==◌, text_eq, if◌then◌else◌, Option, none, some,
}

mutual
  pub data Json : Type 0 where
    null : Json
    bool : Bool → Json
    num : Text → Json
    str : Text → Json
    arr : Items → Json
    obj : Fields → Json

  pub data Items : Type 0 where
    nil : Items
    cons : Json → Items → Items

  -- A `dict` in insertion order.
  pub data Fields : Type 0 where
    end : Fields
    field : Text → Json → Fields → Fields

abbrev hex : ℕ → ℕ
hex d = if ltb d 10 then 48 + d else 87 + d

-- The escapes that `ensure_ascii=False` leaves.
escape_char : ℕ → Text
escape_char c =
    if c == b'"'
    then 92 ∷ b'"' ∷ []
    else if c == 92
    then 92 ∷ 92 ∷ []
    else if c == 10
    then 92 ∷ b'n' ∷ []
    else if c == 13
    then 92 ∷ b'r' ∷ []
    else if c == 9
    then 92 ∷ b't' ∷ []
    else if c == 8
    then 92 ∷ b'b' ∷ []
    else if c == 12
    then 92 ∷ b'f' ∷ []
    else if ltb c 16
    then codes "\\u000" ++ hex c ∷ []
    else if ltb c 32
    then codes "\\u001" ++ hex (c - 16) ∷ []
    else c ∷ []

escape : Text → Text
unfolding escape_char
escape [] = []
escape (c ∷ s) = escape_char c ++ escape s

unfoldable pub quote : Text → Text
unfolding escape
quote s = b'"' ∷ (escape s ++ b'"' ∷ [])

-- Python's order of strings: by code point.
unfoldable pub text_lt : Text → Text → Bool
text_lt [] [] = false
text_lt [] (b ∷ t) = true
text_lt (a ∷ s) [] = false
text_lt (a ∷ s) (b ∷ t) = ltb a b || (a == b && text_lt s t)

insert_field : Text → Json → Fields → Fields
unfolding text_lt
insert_field k v end = field k v end
insert_field k v (field j w fs) =
    let later = insert_field k v fs in
    if text_lt k j then field k v (field j w fs) else field j w later

sort_fields : Fields → Fields
unfolding insert_field
sort_fields end = end
sort_fields (field k v fs) = insert_field k v (sort_fields fs)

-- The order of the keys at every depth.
unfoldable mutual
  unfolding sort_fields

  pub sort_keys : Json → Json
  sort_keys null = null
  sort_keys (bool b) = bool b
  sort_keys (num n) = num n
  sort_keys (str s) = str s
  sort_keys (arr xs) = arr (sort_keys_items xs)
  sort_keys (obj fs) = obj (sort_fields (sort_keys_fields fs))

  sort_keys_items : Items → Items
  sort_keys_items nil = nil
  sort_keys_items (cons x xs) = cons (sort_keys x) (sort_keys_items xs)

  sort_keys_fields : Fields → Fields
  sort_keys_fields end = end
  sort_keys_fields (field k v fs) = field k (sort_keys v) (sort_keys_fields fs)

mutual
  unfolding quote

  -- `json.dumps(value, separators=(",", ":"), ensure_ascii=False)`
  pub dumps : Json → Text
  dumps null = codes "null"
  dumps (bool true) = codes "true"
  dumps (bool false) = codes "false"
  dumps (num n) = n
  dumps (str s) = quote s
  dumps (arr xs) = b'[' ∷ (dumps_items xs ++ b']' ∷ [])
  dumps (obj fs) = b'{' ∷ (dumps_fields fs ++ b'}' ∷ [])

  dumps_items : Items → Text
  dumps_items nil = []
  dumps_items (cons x nil) = dumps x
  dumps_items (cons x (cons y ys)) = dumps x ++ (b',' ∷ dumps_items (cons y ys))

  dumps_fields : Fields → Text
  dumps_fields end = []
  dumps_fields (field k v end) = quote k ++ (b':' ∷ dumps v)
  dumps_fields (field k v (field j w fs)) =
      quote k ++ (b':' ∷ (dumps v ++ (b',' ∷ dumps_fields (field j w fs))))

pub dumps-num : (n : Text) → dumps (num n) ≡ n
unfolding dumps
dumps-num n = refl

unfoldable pub canonical_json_bytes : Json → Text
unfolding dumps sort_keys utf8
canonical_json_bytes value = utf8 (dumps (sort_keys value))
