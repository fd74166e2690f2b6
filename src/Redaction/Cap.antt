-- ===== src/Redaction/Cap.antt =====
-- The size of what `cap_output` of src/n8n_operator/core/redaction.py returns.
use n8n_operator.Json.{utf8-ascii, dumps-num, Json, num}
use n8n_operator.Base.{
  if◌then◌else◌, codes, leb, sym, ◌&&◌, subst, true, Bool, false, refl, ◌-◌, ltb, Bool-cases, zero,
  inr, ◌∷◌, suc, ◌≡◌, inl, ◌⊎◌, arith, ◌<◌, ◌≤◌, [], length, Text, ℕ,
}
use n8n_operator.Redaction.{
  Json, num, ℕ, cap_output, size, minimal_envelope, envelope, shrink_preview, shrunk,
  preview_or_minimal, take, decode_from, compact_json_bytes, is_nonempty,
}

length-take : (n : ℕ) (s : Text) → length (take n s) ≤ n
unfolding take
length-take zero s = omega arith
length-take (suc n) [] = omega arith
length-take (suc n) (c ∷ s) = omega (arith, length-take n s)

abbrev is_too_big : ℕ → ℕ → Text → Bool
is_too_big original max_bytes preview =
    ltb max_bytes (size (envelope original preview)) && is_nonempty preview

module _ (rounds original max_bytes : ℕ) (preview : Text) where
  shrink_preview-goes :
      is_too_big original max_bytes preview ≡ true
      → shrink_preview (suc rounds) original max_bytes preview
        ≡ shrink_preview rounds original max_bytes (take (length preview - 64) preview)
  unfolding shrink_preview
  shrink_preview-goes h = rw (shrink_preview, h) refl

  shrink_preview-stops :
      is_too_big original max_bytes preview ≡ false
      → shrink_preview (suc rounds) original max_bytes preview ≡ preview
  unfolding shrink_preview
  shrink_preview-stops h = rw (shrink_preview, h) refl

-- The envelope fits, or nothing is left of the preview.
abbrev Ended : ℕ → ℕ → Text → Type 0
Ended original max_bytes s = (size (envelope original s) ≤ max_bytes) ⊎ (s ≡ [])

stopped :
    (original max_bytes : ℕ) (preview : Text)
    → is_too_big original max_bytes preview ≡ false
    → Ended original max_bytes preview
stopped original max_bytes [] h = inr refl
stopped original max_bytes (c ∷ s) h = inl (ground arith)

shorter :
    (original max_bytes : ℕ) (preview : Text) (rounds : ℕ)
    → is_too_big original max_bytes preview ≡ true
    → length preview ≤ suc rounds
    → length (take (length preview - 64) preview) ≤ rounds
shorter original max_bytes [] rounds h l = ground arith
shorter original max_bytes (c ∷ s) rounds h l =
    omega (arith, l, length-take (length (c ∷ s) - 64) (c ∷ s))

-- With a round for each character the loop ends: the envelope fits, or nothing is left of the preview.
shrink_preview_ends :
    (rounds original max_bytes : ℕ) (preview : Text)
    → length preview ≤ rounds
    → Ended original max_bytes (shrink_preview rounds original max_bytes preview)
unfolding shrink_preview
shrink_preview_ends zero original max_bytes [] h = inr refl
shrink_preview_ends zero original max_bytes (c ∷ s) h = absurd (omega (arith, h))
shrink_preview_ends (suc rounds) original max_bytes preview h =
    elim (Bool-cases (is_too_big original max_bytes preview)) [
      | inl too_big ↦
          subst (λ s. Ended original max_bytes s)
            (sym (shrink_preview-goes rounds original max_bytes preview too_big))
            (shrink_preview_ends rounds original max_bytes (take (length preview - 64) preview)
              (shorter original max_bytes preview rounds too_big h))
      | inr stops ↦
          subst (λ s. Ended original max_bytes s)
            (sym (shrink_preview-stops rounds original max_bytes preview stops))
            (stopped original max_bytes preview stops)
    ]

-- The loop's result fits, so that the check after it never falls back on the minimal envelope.
shrunk-fits :
    (original max_bytes : ℕ) (preview : Text)
    → size (envelope original []) < max_bytes
    → size (envelope original (shrunk original max_bytes preview)) ≤ max_bytes
shrunk-fits original max_bytes preview h =
    elim (shrink_preview_ends (length preview) original max_bytes preview (omega arith)) [
      | inl fits ↦ fits
      | inr gone ↦ rw gone (omega (arith, h))
    ]

size-zero : size (num (codes "0")) ≡ 1
unfolding compact_json_bytes
size-zero = rw (dumps-num (codes "0"), utf8-ascii 48 refl) refl

preview_or_minimal-envelope :
    (original max_bytes : ℕ) (preview : Text)
    → size (envelope original []) < max_bytes
    → preview_or_minimal original max_bytes preview
      ≡ envelope original (shrunk original max_bytes preview)
unfolding preview_or_minimal
preview_or_minimal-envelope original max_bytes preview h =
    let fits : ltb max_bytes (size (envelope original (shrunk original max_bytes preview)))
        ≡ false =
      ground (arith, shrunk-fits original max_bytes preview h) in
    rw (preview_or_minimal, fits) refl

-- What stands for a value that does not fit: a digit where not even the mark fits, the mark alone where
-- there is no room for a preview, or the envelope.
abbrev pub Stands : Json → ℕ → Json → Type 0
Stands value max_bytes result =
    ((max_bytes < size minimal_envelope) × (result ≡ num (codes "0")))
    ⊎ (((max_bytes ≤ size (envelope (size value) [])) × (result ≡ minimal_envelope))
        ⊎ ((preview : Text) × (result ≡ envelope (size value) preview)))

-- What the result of `cap_output value max_bytes` is.
abbrev pub Capped : Json → ℕ → Json × Bool → Type 0
Capped value max_bytes (result, truncated) =
    (size result ≤ max_bytes)
    × (((size value ≤ max_bytes) × (truncated ≡ false) × (result ≡ value))
        ⊎ ((max_bytes < size value) × (truncated ≡ true) × Stands value max_bytes result))

module _ (value : Json) (max_bytes : ℕ) where
  choose :
      (fits tiny tight : Bool) (preview : Text)
      → leb (size value) max_bytes ≡ fits
      → ltb max_bytes (size minimal_envelope) ≡ tiny
      → leb max_bytes (size (envelope (size value) [])) ≡ tight
      → 1 ≤ max_bytes
      → Capped value max_bytes (
          if fits
          then (value, false)
          else if tiny
          then (num (codes "0"), true)
          else if tight
          then (minimal_envelope, true)
          else (preview_or_minimal (size value) max_bytes preview, true))
  choose true tiny tight preview a b c h =
      let fits : size value ≤ max_bytes = ground arith in (fits, inl (fits, refl, refl))
  choose false true tight preview a b c h =
      (omega (arith, size-zero, h), inr (ground arith, refl, inl (ground arith, refl)))
  choose false false true preview a b c h =
      (ground arith, inr (ground arith, refl, inr (inl (ground arith, refl))))
  choose false false false preview a b c h =
      let room : size (envelope (size value) []) < max_bytes = ground arith in
      let is_envelope = preview_or_minimal-envelope (size value) max_bytes preview room in
      let fits : size (preview_or_minimal (size value) max_bytes preview) ≤ max_bytes =
        rw is_envelope (shrunk-fits (size value) max_bytes preview room) in
      (
        fits,
        inr (ground arith, refl, inr (inr (shrunk (size value) max_bytes preview, is_envelope))),
      )

  -- For any value and any limit of at least one byte, the result's encoding fits in the limit. A value
  -- whose own encoding fits is returned as it is, not marked as truncated. Any other is marked, and
  -- stands as the digit 0 only if the limit is below the size of the mark, as the mark alone only if the
  -- limit has no room for a preview, and else as the envelope with the value's size and a preview.
  pub cap_output_lem : 1 ≤ max_bytes → Capped value max_bytes (cap_output value max_bytes)
  unfolding cap_output
  cap_output_lem h =
      choose _ _ _
        (decode_from 0 0
          (take (max_bytes - size (envelope (size value) [])) (compact_json_bytes value)))
        refl refl refl h
