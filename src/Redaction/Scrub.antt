-- ===== src/Redaction/Scrub.antt =====
-- What is left of a secret after `scrub_secrets` of src/n8n_operator/core/redaction.py.
use n8n_operator.Json.{field, Fields, cons, Items, num, obj, bool, arr, str, Json}
use n8n_operator.Redaction.{
  scrub_fields, scrub_items, is_nonempty, scrub_recursive, Json, replace_from, starts_with,
  redacted_marker, scrub_text, scrub_secrets,
}
use n8n_operator.Base.{
  text_eq_iff, keep, text_eq, text_in, List, sym, ◌-◌, codes, length, refl, subst, ◌++◌, inr, inl,
  Bool-cases, [], arith, true, not, ◌&&◌, ◌||◌, ◌==◌, false, ◌∷◌, ◌≡◌, any, Text, Bool, ℕ, zero,
  suc,
}
use n8n_operator.Json.{Json, Items, Fields, null, bool, num, str, arr, obj, nil, cons, end, field}

-- `secret in text`
unfoldable pub contains : Text → Text → Bool
contains p [] = starts_with p []
contains p (c ∷ s) = starts_with p (c ∷ s) || contains p s

abbrev is_bracket : ℕ → Bool
is_bracket c = c == b'[' || c == b']'

-- Not empty, without the brackets of the marker, and no part of the word between them.
abbrev pub is_apart : Text → Bool
is_apart [] = false
is_apart (c ∷ s) = not (any is_bracket (c ∷ s)) && not (contains (c ∷ s) (codes "REDACTED"))

abbrev Apart : Text → Type 0
Apart p = (any is_bracket p ≡ false) × (contains p (codes "REDACTED") ≡ false)

starts_with-marker :
    (a c : ℕ) (p s : Text)
    → is_bracket a ≡ false
    → is_bracket c ≡ true
    → starts_with (a ∷ p) (c ∷ s) ≡ false
unfolding starts_with
starts_with-marker a c p s h m = ground arith

module _ (c : ℕ) (q s : Text) where
  replace_from-hit :
      starts_with q (c ∷ s) ≡ true
      → replace_from 0 q (c ∷ s) ≡ redacted_marker ++ replace_from (length q - 1) q s
  unfolding replace_from
  replace_from-hit h = rw (replace_from, h) refl

  replace_from-miss :
      starts_with q (c ∷ s) ≡ false → replace_from 0 q (c ∷ s) ≡ c ∷ replace_from 0 q s
  unfolding replace_from
  replace_from-miss h = rw (replace_from, h) refl

-- What the text starts with after the replacement, it started with before.
starts_with-replace_from :
    (p q s : Text)
    → any is_bracket p ≡ false
    → starts_with p (replace_from 0 q s) ≡ true
    → starts_with p s ≡ true
unfolding starts_with replace_from
starts_with-replace_from [] q s h e = refl
starts_with-replace_from (a ∷ p) q [] h e = e
starts_with-replace_from (a ∷ p) q (c ∷ s) h e = elim (Bool-cases (starts_with q (c ∷ s))) [
  | inl occurs ↦
      let marked = subst (λ t. starts_with (a ∷ p) t ≡ true) (replace_from-hit c q s occurs) e in
      let unmarked =
        starts_with-marker a 91 p (codes "REDACTED]" ++ replace_from (length q - 1) q s)
          (ground arith) refl in
      cc
  | inr other ↦
      let copied = subst (λ t. starts_with (a ∷ p) t ≡ true) (replace_from-miss c q s other) e in
      ground (arith, starts_with-replace_from p q s)
]

starts_with-replace_from_not :
    (p q s : Text)
    → any is_bracket p ≡ false
    → starts_with p s ≡ false
    → starts_with p (replace_from 0 q s) ≡ false
starts_with-replace_from_not p q s h e = elim (Bool-cases (starts_with p (replace_from 0 q s))) [
  | inl starts ↦ let before = starts_with-replace_from p q s h starts in cc
  | inr starts_not ↦ starts_not
]

-- A text without brackets that does not start before a bracket does not start across it.
starts_with-bracket :
    (p m s : Text)
    → any is_bracket p ≡ false
    → starts_with p m ≡ false
    → starts_with p (m ++ b']' ∷ s) ≡ false
unfolding starts_with
starts_with-bracket [] m s h e = cc
starts_with-bracket (a ∷ p) [] s h e = starts_with-marker a b']' p s (ground arith) refl
starts_with-bracket (a ∷ p) (c ∷ m) s h e = ground (arith, starts_with-bracket p m s)

contains-bracket :
    (a : ℕ) (p m s : Text)
    → any is_bracket (a ∷ p) ≡ false
    → contains (a ∷ p) m ≡ false
    → contains (a ∷ p) s ≡ false
    → contains (a ∷ p) (m ++ b']' ∷ s) ≡ false
unfolding contains
contains-bracket a p [] s h ms e =
    let here_not = starts_with-marker a b']' p s (ground arith) refl in ground (arith, e, here_not)
contains-bracket a p (c ∷ m) s h ms e =
    let rest = contains-bracket a p m s h (ground arith) e in
    let here_not = starts_with-bracket (a ∷ p) (c ∷ m) s h (ground arith) in
    ground (arith, rest, here_not)

-- The marker brings in no part of a text that is apart from it.
contains-marker :
    (a : ℕ) (p s : Text)
    → Apart (a ∷ p)
    → contains (a ∷ p) s ≡ false
    → contains (a ∷ p) (redacted_marker ++ s) ≡ false
unfolding contains
contains-marker a p s (h, apart) e =
    let inside = contains-bracket a p (codes "REDACTED") s h apart e in
    let here_not = starts_with-marker a b'[' p (codes "REDACTED" ++ b']' ∷ s) (ground arith) refl in
    ground (arith, inside, here_not)

replaced_miss :
    (a : ℕ) (p q : Text) (c : ℕ) (s : Text)
    → starts_with q (c ∷ s) ≡ false
    → starts_with (a ∷ p) (replace_from 0 q (c ∷ s)) ≡ false
    → contains (a ∷ p) (replace_from 0 q s) ≡ false
    → contains (a ∷ p) (replace_from 0 q (c ∷ s)) ≡ false
unfolding contains
replaced_miss a p q c s other starts later =
    subst (λ t. contains (a ∷ p) t ≡ false) (sym (replace_from-miss c q s other))
      (let starts' =
          subst (λ t. starts_with (a ∷ p) t ≡ false) (replace_from-miss c q s other) starts in
        ground (arith, starts', later))

-- A replacement of any secret brings in no other one.
contains-replace_from :
    (a : ℕ) (p q : Text) (k : ℕ) (s : Text)
    → Apart (a ∷ p)
    → contains (a ∷ p) s ≡ false
    → contains (a ∷ p) (replace_from k q s) ≡ false
unfolding contains replace_from
contains-replace_from a p q k [] h e = e
contains-replace_from a p q (suc k) (c ∷ s) h e = contains-replace_from a p q k s h (ground arith)
contains-replace_from a p q zero (c ∷ s) h e =
    let later : contains (a ∷ p) s ≡ false = ground arith in
    elim (Bool-cases (starts_with q (c ∷ s))) [
      | inl occurs ↦
          subst (λ t. contains (a ∷ p) t ≡ false) (sym (replace_from-hit c q s occurs))
            (contains-marker a p _ h (contains-replace_from a p q (length q - 1) s h later))
      | inr other ↦
          let not_here : starts_with (a ∷ p) (c ∷ s) ≡ false = ground arith in
          let still_not = starts_with-replace_from_not (a ∷ p) q (c ∷ s) h.0 not_here in
          replaced_miss a p q c s other still_not (contains-replace_from a p q 0 s h later)
    ]

-- A replacement leaves nothing of its own secret.
contains-replace_from_own :
    (a : ℕ) (p : Text) (k : ℕ) (s : Text)
    → Apart (a ∷ p)
    → contains (a ∷ p) (replace_from k (a ∷ p) s) ≡ false
unfolding contains starts_with replace_from
contains-replace_from_own a p k [] h = refl
contains-replace_from_own a p (suc k) (c ∷ s) h = contains-replace_from_own a p k s h
contains-replace_from_own a p zero (c ∷ s) h = elim (Bool-cases (starts_with (a ∷ p) (c ∷ s))) [
  | inl occurs ↦
      subst (λ t. contains (a ∷ p) t ≡ false) (sym (replace_from-hit c (a ∷ p) s occurs))
        (contains-marker a p _ h (contains-replace_from_own a p _ s h))
  | inr other ↦
      replaced_miss a p (a ∷ p) c s other
        (starts_with-replace_from_not (a ∷ p) (a ∷ p) (c ∷ s) h.0 other)
        (contains-replace_from_own a p 0 s h)
]

contains-scrub_text_other :
    (a : ℕ) (p : Text) (secrets : List Text) (s : Text)
    → Apart (a ∷ p)
    → contains (a ∷ p) s ≡ false
    → contains (a ∷ p) (scrub_text secrets s) ≡ false
unfolding scrub_text
contains-scrub_text_other a p [] s h e = e
contains-scrub_text_other a p (q ∷ qs) s h e =
    contains-scrub_text_other a p qs (replace_from 0 q s) h (contains-replace_from a p q 0 s h e)

contains-scrub_text :
    (a : ℕ) (p : Text) (secrets : List Text) (s : Text)
    → Apart (a ∷ p)
    → text_in (a ∷ p) secrets ≡ true
    → contains (a ∷ p) (scrub_text secrets s) ≡ false
unfolding scrub_text
contains-scrub_text a p [] s h is_in = cc
contains-scrub_text a p (q ∷ qs) s h is_in = elim (Bool-cases (text_eq (a ∷ p) q)) [
  | inl same ↦ contains-scrub_text_other a p qs (replace_from 0 q s) h (
      subst (λ x. contains (a ∷ p) (replace_from 0 x s) ≡ false) ((text_eq_iff (a ∷ p) q).0 same)
        (contains-replace_from_own a p 0 s h))
  | inr other ↦ contains-scrub_text a p qs (replace_from 0 q s) h (ground arith)
]

-- Some text inside a value, keys aside, contains `p`.
unfoldable mutual
  unfolding contains

  pub mentions : Text → Json → Bool
  mentions p (str s) = contains p s
  mentions p (arr xs) = mentions_items p xs
  mentions p (obj fs) = mentions_fields p fs
  mentions p _ = false

  pub mentions_items : Text → Items → Bool
  mentions_items p nil = false
  mentions_items p (cons x xs) = mentions p x || mentions_items p xs

  pub mentions_fields : Text → Fields → Bool
  mentions_fields p end = false
  mentions_fields p (field k v fs) = mentions p v || mentions_fields p fs

module _ (a : ℕ) (p : Text) (secrets : List Text) (h : Apart (a ∷ p))
    (is_in : text_in (a ∷ p) secrets ≡ true) where
  mutual
    unfolding mentions scrub_recursive

    mentions-scrub_recursive : (v : Json) → mentions (a ∷ p) (scrub_recursive secrets v) ≡ false
    mentions-scrub_recursive null = refl
    mentions-scrub_recursive (bool b) = refl
    mentions-scrub_recursive (num n) = refl
    mentions-scrub_recursive (str s) = contains-scrub_text a p secrets s h is_in
    mentions-scrub_recursive (arr xs) = mentions-scrub_items xs
    mentions-scrub_recursive (obj fs) = mentions-scrub_fields fs

    mentions-scrub_items : (xs : Items) → mentions_items (a ∷ p) (scrub_items secrets xs) ≡ false
    mentions-scrub_items nil = refl
    mentions-scrub_items (cons x xs) = rw (mentions-scrub_recursive x) (mentions-scrub_items xs)

    mentions-scrub_fields :
        (fs : Fields) → mentions_fields (a ∷ p) (scrub_fields secrets fs) ≡ false
    mentions-scrub_fields end = refl
    mentions-scrub_fields (field k v fs) =
        rw (mentions-scrub_recursive v) (mentions-scrub_fields fs)

text_in-keep :
    (a : ℕ) (p : Text) (secrets : List Text)
    → text_in (a ∷ p) secrets ≡ true
    → text_in (a ∷ p) (keep is_nonempty secrets) ≡ true
unfolding text_eq
text_in-keep a p [] h = h
text_in-keep a p ([] ∷ ss) h = text_in-keep a p ss h
text_in-keep a p ((c ∷ s) ∷ ss) h = elim (Bool-cases (text_eq (a ∷ p) (c ∷ s))) [
  | inl same ↦ ground arith
  | inr other ↦ let rest = text_in-keep a p ss (ground arith) in ground arith
]

-- No text inside a scrubbed value, at any depth, contains a given secret, provided that the secret is
-- not empty, has none of the brackets of the marker `[REDACTED]` that replaces it, and is no part of
-- the word between them. The other secrets are arbitrary; keys of objects are not looked at.
pub scrub_secrets_lem :
    (value : Json) (secrets : List Text) (secret : Text)
    → is_apart secret ≡ true
    → text_in secret secrets ≡ true
    → mentions secret (scrub_secrets value secrets) ≡ false
unfolding scrub_secrets
scrub_secrets_lem value secrets [] h is_in = cc
scrub_secrets_lem value secrets (a ∷ p) h is_in =
    go (keep is_nonempty secrets) (text_in-keep a p secrets is_in)
  where
    go :
        (kept : List Text)
        → text_in (a ∷ p) kept ≡ true
        → mentions (a ∷ p) (elim kept [ [] ↦ value | s ∷ ss ↦ scrub_recursive (s ∷ ss) value ])
          ≡ false
    go [] it = cc
    go (s ∷ ss) it = mentions-scrub_recursive a p (s ∷ ss) (ground arith, ground arith) it value
