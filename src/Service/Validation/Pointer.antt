-- ===== src/Service/Validation/Pointer.antt =====
-- The JSON pointers of src/n8n_operator/registry/validation.py can be read back.
use n8n_operator.Base.{
  inr, ==_iff, inl, true, ◌==◌, if◌then◌else◌, [], Bool-cases, ◌∷◌, ◌++◌, ◌≡◌, false, List, Bool,
  Text, refl,
}
use n8n_operator.Service.Validation.{escape_segment, json_pointer}

-- The rest of a segment and the segments behind it, with `~0` and `~1` read as what they stand for (RFC 6901);
-- whether a tilde stands before the text.
unfoldable pub read_from : Bool → Text → Text × List Text
read_from escaped [] = ([], [])
read_from true (c ∷ s) =
    let later = read_from false s in ((if c == b'0' then b'~' else b'/') ∷ later.0, later.1)
read_from false (c ∷ s) =
    let later = read_from false s in
    let unescaped = read_from true s in
    if c == b'/'
    then ([], later.0 ∷ later.1)
    else if c == b'~'
    then unescaped
    else (c ∷ later.0, later.1)

unfoldable pub read_pointer : Text → List Text
unfolding read_from
read_pointer [] = []
read_pointer (c ∷ s) = let later = read_from false s in later.0 ∷ later.1

read_from-escape_segment :
    (s rest : Text)
    → read_from false (escape_segment s ++ rest)
      ≡ (s ++ (read_from false rest).0, (read_from false rest).1)
unfolding escape_segment read_from
read_from-escape_segment [] rest = refl
read_from-escape_segment (c ∷ s) rest = elim (Bool-cases (c == b'~')) [
  | inl tilde ↦
      let it : c ≡ b'~' = (==_iff c b'~').0 tilde in rw (it, read_from-escape_segment s rest) refl
  | inr other ↦ elim (Bool-cases (c == b'/')) [
    | inl slash ↦
        let it : c ≡ b'/' = (==_iff c b'/').0 slash in rw (it, read_from-escape_segment s rest) refl
    | inr plain ↦
        rw (escape_segment, other, plain, read_from-escape_segment s rest) (rw (other, plain) refl)
  ]
]

append_nil : (s : Text) → s ++ [] ≡ s
append_nil [] = refl
append_nil (c ∷ s) = rw (append_nil s) refl

read_from-json_pointer :
    (segments : List Text) → read_from false (json_pointer segments) ≡ ([], segments)
unfolding json_pointer read_from
read_from-json_pointer [] = refl
read_from-json_pointer (s ∷ segments) =
    rw
      (
        read_from-escape_segment s (json_pointer segments),
        read_from-json_pointer segments,
        append_nil s,
      )
      refl

-- Reading a JSON pointer by the rules of RFC 6901 gives back the segments of the path that it was made
-- of, whatever characters they contain.
pub json_pointer_roundtrip :
    (segments : List Text) → read_pointer (json_pointer segments) ≡ segments
unfolding read_pointer json_pointer
json_pointer_roundtrip [] = refl
json_pointer_roundtrip (s ∷ segments) =
    rw
      (
        read_from-escape_segment s (json_pointer segments),
        read_from-json_pointer segments,
        append_nil s,
      )
      refl
