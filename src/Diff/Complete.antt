-- ===== src/Diff/Complete.antt =====
-- That the diff finds a change exactly where two values differ: `_generic_diff` of
-- src/n8n_operator/core/definition_diff.py.
use n8n_operator.Diff.Silent.{
  Silent-tail, Silent-head, append-empty, text_in-right, Silent-known, keys_in-all, text_in-left,
  sorted-has, concat_map-empty, Silent, leaf_diff-empty,
}
use n8n_operator.Service.Handles.{decimal}
use n8n_operator.Diff.Values.{fields_in, items_eq, keys, json_eq, SameNumber}
use n8n_operator.Diff.{
  decimal, items_diff, generic_diff, child_path, keys, field, Fields, cons, Items, json_eq, obj,
  arr, DiffEntry, SameNumber, sorted, leaf_diff,
}
use n8n_operator.Json.{null, str, num, bool, end, nil, Fields, Items, Json}
use n8n_operator.Base.{
  suc, ◌⊎◌, if◌then◌else◌, ◌↔◌, text_eq_refl, false, inr, inl, refl, Bool-cases, arith, true, [],
  text_in, ◌++◌, Text, ◌≡◌, List, ℕ,
}

-- Each `dict` in a value has each of its keys once, as every Python `dict` has.
unfoldable mutual
  pub IsPython : Json → Type 0
  IsPython (arr xs) = AllPython xs
  IsPython (obj fs) = HasKeysOnce fs
  IsPython _ = Unit

  pub AllPython : Items → Type 0
  AllPython nil = Unit
  AllPython (cons x xs) = IsPython x × AllPython xs

  pub HasKeysOnce : Fields → Type 0
  HasKeysOnce end = Unit
  HasKeysOnce (field k v fs) = (text_in k (keys fs) ≡ false) × IsPython v × HasKeysOnce fs

open_guard :
    (same : SameNumber) (v w : Json) (es : List DiffEntry)
    → (if json_eq same v w then [] else es) ≡ []
    → (json_eq same v w ≡ true) ⊎ (es ≡ [])
open_guard same v w es h = elim (Bool-cases (json_eq same v w)) [
  | inl equal ↦ inl equal
  | inr differ ↦ inr (rw differ at h)
]

mutual
  unfolding IsPython generic_diff items_diff json_eq items_eq fields_in

  generic_diff_complete :
      (same : SameNumber) (v w : Json) (path : Text)
      → IsPython v
      → generic_diff same v w path ≡ []
      → json_eq same v w ≡ true
  generic_diff_complete same null w path p h = leaf_diff-empty same null w path h
  generic_diff_complete same (bool b) w path p h = leaf_diff-empty same (bool b) w path h
  generic_diff_complete same (num n) w path p h = leaf_diff-empty same (num n) w path h
  generic_diff_complete same (str s) w path p h = leaf_diff-empty same (str s) w path h
  generic_diff_complete same (arr xs) null path p h = leaf_diff-empty same (arr xs) null path h
  generic_diff_complete same (arr xs) (bool b) path p h =
      leaf_diff-empty same (arr xs) (bool b) path h
  generic_diff_complete same (arr xs) (num n) path p h =
      leaf_diff-empty same (arr xs) (num n) path h
  generic_diff_complete same (arr xs) (str s) path p h =
      leaf_diff-empty same (arr xs) (str s) path h
  generic_diff_complete same (arr xs) (obj gs) path p h =
      leaf_diff-empty same (arr xs) (obj gs) path h
  generic_diff_complete same (arr xs) (arr ys) path p h =
      elim (open_guard same (arr xs) (arr ys) _ h) [
        | inl equal ↦ equal
        | inr none_found ↦ items_diff_complete same xs ys 0 path p none_found
      ]
  generic_diff_complete same (obj fs) null path p h = leaf_diff-empty same (obj fs) null path h
  generic_diff_complete same (obj fs) (bool b) path p h =
      leaf_diff-empty same (obj fs) (bool b) path h
  generic_diff_complete same (obj fs) (num n) path p h =
      leaf_diff-empty same (obj fs) (num n) path h
  generic_diff_complete same (obj fs) (str s) path p h =
      leaf_diff-empty same (obj fs) (str s) path h
  generic_diff_complete same (obj fs) (arr ys) path p h =
      leaf_diff-empty same (obj fs) (arr ys) path h
  generic_diff_complete same (obj fs) (obj gs) path p h =
      elim (open_guard same (obj fs) (obj gs) _ h) [
        | inl equal ↦ equal
        | inr none_found ↦
            let silent : (k : Text)
                → text_in k (keys fs ++ keys gs) ≡ true
                → Silent same fs gs path k =
              λ k m.
                concat_map-empty _ k (sorted (keys fs ++ keys gs)) none_found
                  (sorted-has k (keys fs ++ keys gs) m) in
            let there =
              fields_diff_complete same fs gs path p
                (λ k m. silent k (text_in-left k (keys fs) (keys gs) m)) in
            let known = keys_in-all gs fs (λ k m.
              Silent-known same fs gs path k (silent k (text_in-right k (keys fs) (keys gs) m))
                m) in
            ground (arith, there, known)
      ]

  items_diff_complete :
      (same : SameNumber) (xs ys : Items) (i : ℕ) (path : Text)
      → AllPython xs
      → items_diff same xs ys i path ≡ []
      → items_eq same xs ys ≡ true
  items_diff_complete same nil nil i path p h = refl
  items_diff_complete same nil (cons y ys) i path p h = absurd (ground arith)
  items_diff_complete same (cons x xs) nil i path p h = absurd (ground arith)
  items_diff_complete same (cons x xs) (cons y ys) i path (px, pxs) h =
      let parts = append-empty _ _ h in
      let head = generic_diff_complete same x y (child_path path (decimal i)) px parts.0 in
      let tail = items_diff_complete same xs ys (suc i) path pxs parts.1 in
      ground (arith, head, tail)

  fields_diff_complete :
      (same : SameNumber) (fs gs : Fields) (path : Text)
      → HasKeysOnce fs
      → ((k : Text) → text_in k (keys fs) ≡ true → Silent same fs gs path k)
      → fields_in same fs gs ≡ true
  fields_diff_complete same end gs path p h = refl
  fields_diff_complete same (field j v fs) gs path (once, pv, pfs) h =
      let at = Silent-head same j v fs gs path (h j (ground (arith, text_eq_refl j))) in
      let head = generic_diff_complete same v at.0 (child_path path j) pv at.2 in
      let tail =
        fields_diff_complete same fs gs path pfs
          (λ k m. Silent-tail same j v fs gs path k once m (h k (ground (arith, m)))) in
      rw at.1 (ground (arith, head, tail))

generic_diff-guarded :
    (same : SameNumber) (v w : Json) (path : Text)
    → (es : List DiffEntry) × (generic_diff same v w path ≡ (if json_eq same v w then [] else es))
unfolding generic_diff leaf_diff json_eq
generic_diff-guarded same null w path = (_, refl)
generic_diff-guarded same (bool b) w path = (_, refl)
generic_diff-guarded same (num n) w path = (_, refl)
generic_diff-guarded same (str s) w path = (_, refl)
generic_diff-guarded same (arr xs) null path = (_, refl)
generic_diff-guarded same (arr xs) (bool b) path = (_, refl)
generic_diff-guarded same (arr xs) (num n) path = (_, refl)
generic_diff-guarded same (arr xs) (str s) path = (_, refl)
generic_diff-guarded same (arr xs) (arr ys) path = (_, refl)
generic_diff-guarded same (arr xs) (obj gs) path = (_, refl)
generic_diff-guarded same (obj fs) null path = (_, refl)
generic_diff-guarded same (obj fs) (bool b) path = (_, refl)
generic_diff-guarded same (obj fs) (num n) path = (_, refl)
generic_diff-guarded same (obj fs) (str s) path = (_, refl)
generic_diff-guarded same (obj fs) (arr ys) path = (_, refl)
generic_diff-guarded same (obj fs) (obj gs) path = (_, refl)

generic_diff-equal :
    (same : SameNumber) (v w : Json) (path : Text)
    → json_eq same v w ≡ true
    → generic_diff same v w path ≡ []
generic_diff-equal same v w path h =
    let form = generic_diff-guarded same v w path in rw form.1 (rw h refl)

-- For any two values, the registered one with each key of a `dict` once, the diff has no entry exactly
-- if the two are equal as Python compares them: up to the order of the keys, and element by element.
pub generic_diff_iff :
    (same : SameNumber) (v w : Json) (path : Text)
    → IsPython v
    → (generic_diff same v w path ≡ []) ↔ (json_eq same v w ≡ true)
generic_diff_iff same v w path p =
    (generic_diff_complete same v w path p, generic_diff-equal same v w path)
