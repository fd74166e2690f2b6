-- ===== src/Redaction.antt =====
-- Scrubbing and capping of outputs: src/n8n_operator/core/redaction.py. What a JSONPath expression
-- selects is a library's: updating a value along a path is a parameter.
pub mod Scrub
pub mod Cap
use n8n_operator.Base.{
  ℕ, zero, suc, ◌+◌, ◌-◌, ◌*◌, Bool, true, false, not, ◌&&◌, ◌==◌, List, [], ◌∷◌, ◌++◌, length,
  keep, leb, ltb, Text, codes, if◌then◌else◌,
}
use n8n_operator.Json.{
  Json, Items, Fields, null, bool, num, str, arr, obj, nil, cons, end, field, dumps, utf8,
}
use n8n_operator.Service.Handles.{decimal}

-- `REDACTED_MARKER`
abbrev pub redacted_marker : Text
redacted_marker = codes "[REDACTED]"

-- `redact`: `expr.update(result, REDACTED_MARKER)` for each path.
unfoldable pub redact : (Text → Json → Json) → Json → List Text → Json
redact update value [] = value
redact update value (path ∷ paths) = redact update (update path value) paths

-- `text.startswith(prefix)`
unfoldable pub starts_with : Text → Text → Bool
starts_with [] s = true
starts_with (a ∷ p) [] = false
starts_with (a ∷ p) (b ∷ s) = a == b && starts_with p s

-- `text.replace(secret, REDACTED_MARKER)` for a secret that is not empty, with the number of
-- characters of the last occurrence that are still to be passed over.
unfoldable pub replace_from : ℕ → Text → Text → Text
replace_from skip secret [] = []
replace_from (suc skip) secret (c ∷ s) = replace_from skip secret s
replace_from zero secret (c ∷ s) = elim (starts_with secret (c ∷ s)) [
  | true ↦ redacted_marker ++ replace_from (length secret - 1) secret s
  | false ↦ c ∷ replace_from zero secret s
]

unfoldable pub scrub_text : List Text → Text → Text
unfolding replace_from
scrub_text [] text = text
scrub_text (secret ∷ secrets) text = scrub_text secrets (replace_from zero secret text)

-- `_scrub_recursive`
unfoldable mutual
  unfolding scrub_text

  pub scrub_recursive : List Text → Json → Json
  scrub_recursive secrets null = null
  scrub_recursive secrets (bool b) = bool b
  scrub_recursive secrets (num n) = num n
  scrub_recursive secrets (str s) = str (scrub_text secrets s)
  scrub_recursive secrets (arr xs) = arr (scrub_items secrets xs)
  scrub_recursive secrets (obj fs) = obj (scrub_fields secrets fs)

  pub scrub_items : List Text → Items → Items
  scrub_items secrets nil = nil
  scrub_items secrets (cons x xs) = cons (scrub_recursive secrets x) (scrub_items secrets xs)

  pub scrub_fields : List Text → Fields → Fields
  scrub_fields secrets end = end
  scrub_fields secrets (field k v fs) =
      field k (scrub_recursive secrets v) (scrub_fields secrets fs)

abbrev pub is_nonempty : Text → Bool
is_nonempty [] = false
is_nonempty (c ∷ s) = true

unfoldable pub scrub_secrets : Json → List Text → Json
unfolding scrub_recursive
scrub_secrets value secrets = elim (keep is_nonempty secrets) [
  | [] ↦ value
  | s ∷ ss ↦ scrub_recursive (s ∷ ss) value
]

-- `_compact_json_bytes`
unfoldable pub compact_json_bytes : Json → Text
compact_json_bytes value = utf8 (dumps value)

-- `bytes.decode("utf-8", errors="ignore")` of a prefix of encoded text, which can only break off
-- within its last character: how many bytes the present character still needs, and its bits so far.
unfoldable pub decode_from : ℕ → ℕ → Text → Text
decode_from needed bits [] = []
decode_from zero bits (b ∷ s) =
    if ltb b 128
    then b ∷ decode_from 0 0 s
    else if ltb b 224
    then decode_from 1 (b - 192) s
    else if ltb b 240
    then decode_from 2 (b - 224) s
    else decode_from 3 (b - 240) s
decode_from (suc zero) bits (b ∷ s) = (bits * 64 + (b - 128)) ∷ decode_from 0 0 s
decode_from (suc (suc n)) bits (b ∷ s) = decode_from (suc n) (bits * 64 + (b - 128)) s

unfoldable pub take : ℕ → Text → Text
take zero s = []
take (suc n) [] = []
take (suc n) (c ∷ s) = c ∷ take n s

abbrev pub minimal_envelope : Json
minimal_envelope = obj (field (codes "truncated") (bool true) end)

abbrev pub envelope : ℕ → Text → Json
envelope original_bytes preview = obj (
    field (codes "truncated") (bool true) (
      field (codes "original_bytes") (num (decimal original_bytes))
        (field (codes "preview") (str preview) end)))

abbrev pub size : Json → ℕ
size value = length (compact_json_bytes value)

-- The loop that shortens the preview, with its rounds.
unfoldable pub shrink_preview : ℕ → ℕ → ℕ → Text → Text
unfolding take compact_json_bytes
shrink_preview zero original max_bytes preview = preview
shrink_preview (suc rounds) original max_bytes preview =
    elim (ltb max_bytes (size (envelope original preview)) && is_nonempty preview) [
      | false ↦ preview
      | true ↦ shrink_preview rounds original max_bytes (take (length preview - 64) preview)
    ]

abbrev pub shrunk : ℕ → ℕ → Text → Text
shrunk original max_bytes preview = shrink_preview (length preview) original max_bytes preview

-- The envelope with a preview, or without one where it does not fit.
unfoldable pub preview_or_minimal : ℕ → ℕ → Text → Json
unfolding shrink_preview compact_json_bytes
preview_or_minimal original max_bytes preview =
    if ltb max_bytes (size (envelope original (shrunk original max_bytes preview)))
    then minimal_envelope
    else envelope original (shrunk original max_bytes preview)

unfoldable pub cap_output : Json → ℕ → Json × Bool
unfolding preview_or_minimal compact_json_bytes take decode_from
cap_output value max_bytes =
    let original = size value in
    if leb original max_bytes
    then (value, false)
    else if ltb max_bytes (size minimal_envelope)
    then (num (codes "0"), true)
    else if leb max_bytes (size (envelope original []))
    then (minimal_envelope, true)
    else (
      preview_or_minimal original max_bytes (
          decode_from 0 0
            (take (max_bytes - size (envelope original [])) (compact_json_bytes value))),
      true,
    )
