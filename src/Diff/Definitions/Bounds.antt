-- ===== src/Diff/Definitions/Bounds.antt =====
-- The bound on the entries of a diff: `_Budget` of src/n8n_operator/core/definition_diff.py.
use n8n_operator.Json.{Fields}
use n8n_operator.Diff.Values.{SameNumber}
use n8n_operator.Diff.{Fields, SameNumber, DiffEntry}
use n8n_operator.Diff.Definitions.{
  definition_changes, max_diff_entries, is_truncated, Budget, DiffEntry, add_all,
  diff_canonical_definitions, add,
}
use n8n_operator.Base.{
  length-append, ◌∙◌, ◌<◌, zero, ◌↔◌, sym, arith, false, ap, refl, suc, ◌≤◌, true, ◌∷◌, ◌+◌, ◌≡◌,
  length, ltb, [], Bool, ◌++◌, List, ℕ,
}

-- The first entries, at most so many.
unfoldable pub first_entries : ℕ → List DiffEntry → List DiffEntry
first_entries zero es = []
first_entries (suc n) [] = []
first_entries (suc n) (e ∷ es) = e ∷ first_entries n es

append_assoc : (xs ys zs : List DiffEntry) → (xs ++ ys) ++ zs ≡ xs ++ (ys ++ zs)
append_assoc [] ys zs = refl
append_assoc (x ∷ xs) ys zs = ap (λ t. x ∷ t) (append_assoc xs ys zs)

append-[] : (xs : List DiffEntry) → xs ++ [] ≡ xs
append-[] [] = refl
append-[] (x ∷ xs) = ap (λ t. x ∷ t) (append-[] xs)

length-first_entries : (n : ℕ) (es : List DiffEntry) → length (first_entries n es) ≤ n
unfolding first_entries
length-first_entries zero es = omega arith
length-first_entries (suc n) [] = omega arith
length-first_entries (suc n) (e ∷ es) = omega (arith, length-first_entries n es)

add_all-total :
    (b : Budget) (es : List DiffEntry) → (add_all b es).total_changes ≡ b.total_changes + length es
unfolding add_all add
add_all-total b [] = omega arith
add_all-total b (e ∷ es) = omega (arith, add_all-total (add b e) es)

add-room :
    (b : Budget) (e : DiffEntry)
    → ltb (length b.entries) max_diff_entries ≡ true
    → (add b e).entries ≡ b.entries ++ (e ∷ [])
unfolding add
add-room b e h = rw h refl

add-full :
    (b : Budget) (e : DiffEntry)
    → ltb (length b.entries) max_diff_entries ≡ false
    → (add b e).entries ≡ b.entries
unfolding add
add-full b e h = rw h refl

add_all-entries :
    (n : ℕ) (b : Budget) (es : List DiffEntry)
    → length b.entries + n ≡ max_diff_entries
    → (add_all b es).entries ≡ b.entries ++ first_entries n es
unfolding add_all first_entries
add_all-entries zero b [] h = sym (append-[] b.entries)
add_all-entries (suc n) b [] h = sym (append-[] b.entries)
add_all-entries zero b (e ∷ es) h =
    let full = add-full b e (ground (arith, h)) in
    add_all-entries zero (add b e) es (rw full h) ∙ ap (λ t. t ++ []) full
add_all-entries (suc n) b (e ∷ es) h =
    let room = add-room b e (ground (arith, h)) in
    let longer : length (b.entries ++ (e ∷ [])) + n ≡ max_diff_entries =
      omega (arith, h, length-append b.entries (e ∷ [])) in
    add_all-entries n (add b e) es (rw room longer)
    ∙ (ap (λ t. t ++ first_entries n es) room
        ∙ append_assoc b.entries (e ∷ []) (first_entries n es))

-- What `diff_canonical_definitions` returns for a list of changes.
abbrev pub Reports : List DiffEntry → List DiffEntry × Bool × ℕ → Type 0
Reports changes (entries, truncated, total_changes) =
    (entries ≡ first_entries max_diff_entries changes)
    × (length entries ≤ max_diff_entries)
    × (total_changes ≡ length changes)
    × ((truncated ≡ true) ↔ (max_diff_entries < length changes))

length-first_entries_min :
    (n : ℕ) (es : List DiffEntry)
    → (ltb (length (first_entries n es)) (length es) ≡ true) ↔ (n < length es)
unfolding first_entries
length-first_entries_min zero [] = ground arith
length-first_entries_min zero (e ∷ es) = ground arith
length-first_entries_min (suc n) [] = ground arith
length-first_entries_min (suc n) (e ∷ es) = ground (arith, length-first_entries_min n es)

add_all-Reports :
    (changes : List DiffEntry)
    → let budget = add_all (record { entries = []; total_changes = 0 }) changes in
      Reports changes (budget.entries, is_truncated budget, budget.total_changes)
unfolding is_truncated
add_all-Reports changes =
    let empty : Budget = record { entries = []; total_changes = 0 } in
    let entries : (add_all empty changes).entries ≡ first_entries max_diff_entries changes =
      add_all-entries max_diff_entries empty changes refl in
    let total : (add_all empty changes).total_changes ≡ length changes =
      omega (arith, add_all-total empty changes) in
    (
      entries,
      rw entries (length-first_entries max_diff_entries changes),
      total,
      rw (entries, total) (length-first_entries_min max_diff_entries changes),
    )

-- For any two definitions, the diff has the first 200 of the changes in the order in which they are
-- found, and no more; the total counts every change; and the diff is marked as truncated exactly if
-- there are more than 200 changes.
pub diff_canonical_definitions_bounded :
    (same : SameNumber) (registered live : Fields)
    → Reports
        (definition_changes same registered live)
        (diff_canonical_definitions same registered live)
unfolding diff_canonical_definitions
diff_canonical_definitions_bounded same registered live =
    add_all-Reports (definition_changes same registered live)
