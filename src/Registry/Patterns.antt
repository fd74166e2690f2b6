-- ===== src/Registry/Patterns.antt =====
-- The patterns of src/n8n_operator/registry/loader.py. `$` stands for the end of a text, and for the
-- place before a newline that ends it.
use n8n_operator.Base.{
  if◌then◌else◌, zero, [], ◌∷◌, none, ◌&&◌, some, leb, Option, ◌==◌, ◌||◌, not, true, false, suc,
  codes, is_some, Text, Bool, ℕ,
}

is_end : Text → Bool
is_end [] = true
is_end (c ∷ []) = c == 10
is_end (c ∷ (d ∷ s)) = false

is_digit : ℕ → Bool
is_digit c = leb b'0' c && leb c b'9'

-- `[a-z0-9]`
is_word_char : ℕ → Bool
unfolding is_digit
is_word_char c = is_digit c || (leb b'a' c && leb c b'z')

-- `[._-]`
is_separator : ℕ → Bool
is_separator c = c == b'.' || (c == b'_' || c == b'-')

-- The rest of an id, in a word or, where `fresh`, before one.
id_from : Bool → Text → Bool
unfolding is_word_char is_separator is_end
id_from fresh [] = not fresh
id_from true (c ∷ s) = is_word_char c && id_from false s
id_from false (c ∷ s) =
    is_end (c ∷ s) || ((is_word_char c && id_from false s) || (is_separator c && id_from true s))

-- `ID_PATTERN`: `^[a-z0-9]+(?:[._-][a-z0-9]+)*$`
unfoldable pub matches_id : Text → Bool
unfolding id_from
matches_id s = id_from true s

-- `[0-9a-f]`
is_hex_char : ℕ → Bool
unfolding is_digit
is_hex_char c = is_digit c || (leb b'a' c && leb c b'f')

hex_from : ℕ → Text → Bool
unfolding is_hex_char is_end
hex_from zero s = is_end s
hex_from (suc n) [] = false
hex_from (suc n) (c ∷ s) = is_hex_char c && hex_from n s

-- The text after a prefix, if it has the prefix.
unfoldable pub after_prefix : Text → Text → Option Text
after_prefix [] s = some s
after_prefix (a ∷ p) [] = none
after_prefix (a ∷ p) (b ∷ s) = if a == b then after_prefix p s else none

-- `DEFINITION_HASH_PATTERN`: `^sha256:[0-9a-f]{64}$`
unfoldable pub matches_definition_hash : Text → Bool
unfolding after_prefix hex_from
matches_definition_hash s = elim (after_prefix (codes "sha256:") s) [
  | none ↦ false
  | some digits ↦ hex_from 64 digits
]

-- `.*$`: no newline but for one at the end.
one_line : Text → Bool
one_line [] = true
one_line (c ∷ []) = true
one_line (c ∷ (d ∷ s)) = not (c == 10) && one_line (d ∷ s)

-- `.+$`
some_line : Text → Bool
unfolding one_line
some_line [] = false
some_line (c ∷ s) = not (c == 10) && one_line s

-- `SECRET_REF_PATTERN`: `^(env|keyring):.+$`
unfoldable pub matches_secret_ref : Text → Bool
unfolding after_prefix some_line
matches_secret_ref s = elim (after_prefix (codes "env:") s) [
  | some rest ↦ some_line rest
  | none ↦ elim (after_prefix (codes "keyring:") s) [ some rest ↦ some_line rest | none ↦ false ]
]

-- `part in s`
unfoldable pub contains : Text → Text → Bool
unfolding after_prefix
contains part [] = is_some (after_prefix part [])
contains part (c ∷ s) = is_some (after_prefix part (c ∷ s)) || contains part s
