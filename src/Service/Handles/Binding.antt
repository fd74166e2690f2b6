-- ===== src/Service/Handles/Binding.antt =====
-- The preimage of an approval's binding can be read back: `compute_approval_binding` of
-- src/n8n_operator/core/handles.py.
use n8n_operator.Service.Handles.{binding_parts, decimal, binding_preimage, decimal_rounds}
use Prim.Native.Nat.{◌/◌, ◌%◌}
use n8n_operator.Base.{
  ap, ◌∙◌, false, inr, ◌-◌, ◌+◌, inl, ◌*◌, ltb, ◌==◌, Bool-cases, if◌then◌else◌, zero, arith, some,
  ◌≡◌, ◌∷◌, List, suc, none, ◌++◌, Option, ◌<◌, length, [], Text, ℕ, refl,
}

-- The number that the digits spell after `m`, and what follows the colon behind them.
unfoldable pub read_number : ℕ → Text → Option (ℕ × Text)
read_number m [] = none
read_number m (c ∷ s) = if c == b':' then some (m, s) else read_number (m * 10 + (c - 48)) s

unfoldable pub split_at : ℕ → Text → Text × Text
split_at zero s = ([], s)
split_at (suc n) [] = ([], [])
split_at (suc n) (c ∷ s) = let (a, b) = split_at n s in (c ∷ a, b)

-- The first of the parts, and the text of the others.
unfoldable pub read_part : Text → Option (Text × Text)
read_part s = elim (read_number 0 s) [
  | none ↦ none
  | some (n, rest) ↦
      let (part, others) = split_at n rest in
      elim others [ [] ↦ none | bar ∷ more ↦ some (part, more) ]
]

abbrev push : Text → Option (List Text) → Option (List Text)
push part none = none
push part (some parts) = some (part ∷ parts)

-- As many parts as there are rounds.
unfoldable pub read_parts : ℕ → Text → Option (List Text)
read_parts zero s = some []
read_parts (suc n) s = elim (read_part s) [
  | none ↦ none
  | some (part, more) ↦ push part (read_parts n more)
]

read_number-digit :
    (m x : ℕ) (s : Text) → x < 10 → read_number m ((48 + x) ∷ s) ≡ read_number (m * 10 + x) s
unfolding read_number
read_number-digit m x s h =
    let digit : ((48 + x) == b':') ≡ false = ground arith in
    let value : 48 + x - 48 ≡ x = omega arith in rw (digit, value) refl

read_number-rounds :
    (rounds n : ℕ) (acc rest : Text)
    → n < rounds
    → read_number 0 (decimal_rounds rounds n acc ++ rest) ≡ read_number n (acc ++ rest)
unfolding decimal_rounds read_number
read_number-rounds zero n acc rest h = absurd (omega (arith, h))
read_number-rounds (suc rounds) n acc rest h = elim (Bool-cases (ltb n 10)) [
  | inl digit ↦
      rw (decimal_rounds, digit)
        (read_number-digit 0 n (acc ++ rest) (ground arith)
          ∙ ap (λ m. read_number m (acc ++ rest)) (omega arith))
  | inr large ↦
      let shrinks : n / 10 < rounds = ground arith in
      let whole : n / 10 * 10 + n % 10 ≡ n = omega arith in
      rw (decimal_rounds, large)
        (read_number-rounds rounds (n / 10) ((48 + n % 10) ∷ acc) rest shrinks
          ∙ read_number-digit (n / 10) (n % 10) (acc ++ rest) (omega arith)
          ∙ ap (λ m. read_number m (acc ++ rest)) whole)
]

split_at-length : (part rest : Text) → split_at (length part) (part ++ rest) ≡ (part, rest)
unfolding split_at
split_at-length [] rest = refl
split_at-length (c ∷ part) rest = rw (split_at-length part rest) refl

read_number-decimal :
    (n : ℕ) (rest : Text) → read_number 0 (decimal n ++ (b':' ∷ rest)) ≡ some (n, rest)
unfolding decimal read_number
read_number-decimal n rest = read_number-rounds (suc n) n [] (b':' ∷ rest) (omega arith)

append_assoc : (a b c : Text) → (a ++ b) ++ c ≡ a ++ (b ++ c)
append_assoc [] b c = refl
append_assoc (x ∷ a) b c = rw (append_assoc a b c) refl

read_part-part :
    (part rest : Text)
    → read_part (decimal (length part) ++ (b':' ∷ (part ++ (b'|' ∷ rest)))) ≡ some (part, rest)
unfolding read_part
read_part-part part rest =
    rw
      (
        read_part,
        read_number-decimal (length part) (part ++ (b'|' ∷ rest)),
        split_at-length part (b'|' ∷ rest),
      )
      (ap (λ p. some (p.0, rest)) (split_at-length part (b'|' ∷ rest)))

-- Every list of parts is read back from the joined text.
read_parts-binding_parts :
    (parts : List Text) → read_parts (length parts) (binding_parts parts) ≡ some parts
unfolding read_parts binding_parts
read_parts-binding_parts [] = refl
read_parts-binding_parts (part ∷ parts) =
    rw (read_parts, read_part-part part (binding_parts parts), read_parts-binding_parts parts) refl

-- The text that an approval's binding is taken over determines all five bound values: reading five parts
-- gives back the operation's id, the principal, the fingerprint of the arguments, the snapshot and the
-- definition's hash, whatever characters they contain.
pub binding_preimage_roundtrip :
    (operation_id principal_id argument_fingerprint snapshot_id definition_hash : Text)
    → read_parts 5 (
        binding_preimage operation_id principal_id argument_fingerprint snapshot_id definition_hash)
      ≡ some
          (operation_id ∷ principal_id ∷ argument_fingerprint ∷ snapshot_id ∷ definition_hash ∷ [])
unfolding binding_preimage
binding_preimage_roundtrip o p a s h = read_parts-binding_parts (o ∷ p ∷ a ∷ s ∷ h ∷ [])
