-- ===== src/Json/Nfc.antt =====
-- The NFC form of a value's strings and its canonical bytes: `_nfc_normalize` of
-- src/n8n_operator/registry/loader.py, and the copy of it in src/n8n_operator/n8n/canonicalization.py.
-- The NFC form of a text is a parameter.
use n8n_operator.Base.{text_eq, if◌then◌else◌, Text}
use n8n_operator.Json.{
  nil, null, cons, Items, obj, end, arr, str, num, field, Fields, bool, Json, canonical_json_bytes,
}

-- `d[k] = v`
unfoldable pub put : Text → Json → Fields → Fields
put k v end = field k v end
put k v (field j w fs) =
    let rest = put k v fs in if text_eq j k then field j v fs else field j w rest

-- `_nfc_normalize`; a `dict` comprehension keeps the last value of keys with the same form.
unfoldable mutual
  unfolding put

  pub nfc_normalize : (Text → Text) → Json → Json
  nfc_normalize nfc null = null
  nfc_normalize nfc (bool b) = bool b
  nfc_normalize nfc (num n) = num n
  nfc_normalize nfc (str s) = str (nfc s)
  nfc_normalize nfc (arr xs) = arr (nfc_items nfc xs)
  nfc_normalize nfc (obj fs) = obj (nfc_fields nfc end fs)

  pub nfc_items : (Text → Text) → Items → Items
  nfc_items nfc nil = nil
  nfc_items nfc (cons x xs) = cons (nfc_normalize nfc x) (nfc_items nfc xs)

  pub nfc_fields : (Text → Text) → Fields → Fields → Fields
  nfc_fields nfc acc end = acc
  nfc_fields nfc acc (field k v fs) = nfc_fields nfc (put (nfc k) (nfc_normalize nfc v) acc) fs

-- `canonical_json_bytes` of the loader, by which `canonicalize_arguments` makes the bytes of a call's
-- arguments.
unfoldable pub canonicalize_arguments : (Text → Text) → Json → Text
unfolding nfc_normalize canonical_json_bytes
canonicalize_arguments nfc value = canonical_json_bytes (nfc_normalize nfc value)
