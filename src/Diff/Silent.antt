-- ===== src/Diff/Silent.antt =====
-- Keys and entries: what a diff without entries says of each key of two `dict` values, for
-- `_generic_diff` of src/n8n_operator/core/definition_diff.py.
use n8n_operator.Service.Validation.{get_field}
use n8n_operator.Diff.Values.{keys_in, keys, json_eq, SameNumber}
use n8n_operator.Diff.{
  generic_diff, field_diff, child_path, diff_at, get_field, text_lt, keys, field, Fields, json_eq,
  DiffEntry, SameNumber, sorted, leaf_diff, insert_key, concat_map,
}
use n8n_operator.Json.{end, text_lt, Fields, Json}
use n8n_operator.Base.{
  Option-cases, none, some, text_eq_refl, false, sym, text_eq_iff, subst, inr, inl, refl,
  Bool-cases, arith, ◌||◌, ◌∷◌, true, [], text_eq, text_in, ◌++◌, Text, ◌≡◌, Bool, List,
}

pub append-empty : (xs ys : List DiffEntry) → xs ++ ys ≡ [] → (xs ≡ []) × (ys ≡ [])
append-empty [] ys h = (refl, h)
append-empty (x ∷ xs) ys h = absurd (ground arith)

or_left : (a b : Bool) → a ≡ true → (a || b) ≡ true
or_left a b h = ground arith

insert_key-has :
    (k j : Text) (ks : List Text)
    → (text_eq k j || text_in k ks) ≡ true
    → text_in k (insert_key j ks) ≡ true
unfolding insert_key
insert_key-has k j [] h = h
insert_key-has k j (i ∷ ks) h = elim (Bool-cases (text_eq j i)) [
  | inl same ↦
      let h' : (text_eq k i || text_in k (i ∷ ks)) ≡ true =
        subst (λ x. (text_eq k x || text_in k (i ∷ ks)) ≡ true) ((text_eq_iff j i).0 same) h in
      rw same (ground arith)
  | inr other ↦ elim (Bool-cases (text_lt j i)) [
    | inl before ↦ rw (other, before) h
    | inr after ↦ rw (other, after) (ground (arith, insert_key-has k j ks))
  ]
]

pub sorted-has : (k : Text) (ks : List Text) → text_in k ks ≡ true → text_in k (sorted ks) ≡ true
unfolding sorted
sorted-has k [] h = h
sorted-has k (j ∷ ks) h = insert_key-has k j (sorted ks) (ground (arith, sorted-has k ks))

pub concat_map-empty :
    (f : Text → List DiffEntry) (k : Text) (ks : List Text)
    → concat_map f ks ≡ []
    → text_in k ks ≡ true
    → f k ≡ []
unfolding concat_map
concat_map-empty f k [] h m = absurd (ground arith)
concat_map-empty f k (j ∷ ks) h m = elim (Bool-cases (text_eq k j)) [
  | inl same ↦
      subst (λ i. f i ≡ []) (sym ((text_eq_iff k j).0 same))
        (append-empty (f j) (concat_map f ks) h).0
  | inr other ↦
      concat_map-empty f k ks (append-empty (f j) (concat_map f ks) h).1 (ground (arith, other, m))
]

pub leaf_diff-empty :
    (same : SameNumber) (v w : Json) (path : Text)
    → leaf_diff same v w path ≡ []
    → json_eq same v w ≡ true
unfolding leaf_diff
leaf_diff-empty same v w path h = elim (Bool-cases (json_eq same v w)) [
  | inl equal ↦ equal
  | inr differ ↦ absurd (ground arith)
]

pub text_neq_sym : (k j : Text) → text_eq k j ≡ false → text_eq j k ≡ false
text_neq_sym k j h = elim (Bool-cases (text_eq j k)) [
  | inl same ↦ absurd (
      let swapped : text_eq k j ≡ true = (text_eq_iff k j).1 (sym ((text_eq_iff j k).0 same)) in
      ground arith)
  | inr other ↦ other
]

pub get_field-there :
    (k : Text) (fs : Fields) → text_in k (keys fs) ≡ true → (v : Json) × (get_field k fs ≡ some v)
unfolding get_field
get_field-there k end h = absurd (ground arith)
get_field-there k (field j v fs) h = elim (Bool-cases (text_eq j k)) [
  | inl same ↦ (v, rw same refl)
  | inr other ↦
      let there = get_field-there k fs (ground (arith, text_neq_sym j k other, h)) in
      (there.0, rw other there.1)
]

pub get_field-absent :
    (k : Text) (fs : Fields) → text_in k (keys fs) ≡ false → get_field k fs ≡ none
unfolding get_field
get_field-absent k end h = refl
get_field-absent k (field j v fs) h =
    let other : text_eq j k ≡ false = text_neq_sym k j (ground (arith, h)) in
    rw other (get_field-absent k fs (ground (arith, h)))

-- What the diff of two `dict` values says of a key, where it says nothing.
abbrev pub Silent : SameNumber → Fields → Fields → Text → Text → Type 0
Silent same fs gs path k =
    diff_at (child_path path k) (get_field k fs) (get_field k gs)
      (λ w. field_diff same fs k w (child_path path k))
    ≡ []

pub Silent-known :
    (same : SameNumber) (fs gs : Fields) (path k : Text)
    → Silent same fs gs path k
    → text_in k (keys gs) ≡ true
    → text_in k (keys fs) ≡ true
unfolding diff_at
Silent-known same fs gs path k h m = elim (Bool-cases (text_in k (keys fs))) [
  | inl known ↦ known
  | inr unknown ↦
      let there = get_field-there k gs m in
      let h' = rw (get_field-absent k fs unknown, there.1) at h in absurd (ground arith)
]

pub keys_in-all :
    (gs fs : Fields)
    → ((k : Text) → text_in k (keys gs) ≡ true → text_in k (keys fs) ≡ true)
    → keys_in gs fs ≡ true
unfolding keys_in
keys_in-all end fs h = refl
keys_in-all (field k w gs) fs h =
    let first_in = h k (ground (arith, text_eq_refl k)) in
    let rest = keys_in-all gs fs (λ j m. h j (ground (arith, m))) in ground (arith, first_in, rest)

-- Past the first pair, for a key that is another's.
pub Silent-tail :
    (same : SameNumber) (j : Text) (v : Json) (fs gs : Fields) (path k : Text)
    → text_in j (keys fs) ≡ false
    → text_in k (keys fs) ≡ true
    → Silent same (field j v fs) gs path k
    → Silent same fs gs path k
unfolding get_field field_diff
Silent-tail same j v fs gs path k once m h =
    let other : text_eq j k ≡ false = elim (Bool-cases (text_eq j k)) [
      | inl equal ↦ absurd (
          let twice : text_in k (keys fs) ≡ false =
            subst (λ i. text_in i (keys fs) ≡ false) ((text_eq_iff j k).0 equal) once in
          ground arith)
      | inr differ ↦ differ
    ] in
    rw other at h

pub Silent-head :
    (same : SameNumber) (j : Text) (v : Json) (fs gs : Fields) (path : Text)
    → Silent same (field j v fs) gs path j
    → (w : Json) × (get_field j gs ≡ some w) × (generic_diff same v w (child_path path j) ≡ [])
unfolding get_field field_diff diff_at
Silent-head same j v fs gs path h = elim (Option-cases (get_field j gs)) [
  | inl gone ↦ absurd (let h' = rw (text_eq_refl j, gone) at h in ground arith)
  | inr (w, there) ↦ (w, there, rw (text_eq_refl j, there) at h)
]

pub text_in-left :
    (k : Text) (xs ys : List Text) → text_in k xs ≡ true → text_in k (xs ++ ys) ≡ true
text_in-left k [] ys h = absurd (ground arith)
text_in-left k (x ∷ xs) ys h = elim (Bool-cases (text_eq k x)) [
  | inl same ↦ ground arith
  | inr other ↦ rw other (text_in-left k xs ys (ground (arith, h)))
]

pub text_in-right :
    (k : Text) (xs ys : List Text) → text_in k ys ≡ true → text_in k (xs ++ ys) ≡ true
text_in-right k [] ys h = h
text_in-right k (x ∷ xs) ys h = ground (arith, text_in-right k xs ys h)
