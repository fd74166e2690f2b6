-- ===== src/Authorization/Glob.antt =====
-- `match_workflow_scope`: `fnmatch.fnmatchcase`, that is `*`, `?`, `[seq]`, `[!seq]` and literal
-- characters, with a `[` that is never closed standing for itself.
use n8n_operator.Base.{
  ℕ, zero, suc, Bool, true, false, not, ◌&&◌, ◌||◌, Option, none, some, List, [], ◌∷◌, Text, leb,
  ◌==◌, if◌then◌else◌, any, length,
}

pub data Item : Type 0 where
  star : Item
  one : Item
  lit : ℕ → Item
  -- negated, ranges
  seq : Bool → List (ℕ × ℕ) → Item

-- The text up to the closing bracket, and the text behind it.
split_close : Text → Option (Text × Text)
split_close [] = none
split_close (c ∷ p) =
    let rest = split_close p in
    if c == b']' then some ([], p) else elim rest [ none ↦ none | some (a, b) ↦ some (c ∷ a, b) ]

-- A `]` that stands first belongs to the sequence.
find_close : Text → Option (Text × Text)
unfolding split_close
find_close [] = none
find_close (c ∷ p) =
    if c == b']'
    then elim (split_close p) [ none ↦ none | some (a, b) ↦ some (c ∷ a, b) ]
    else split_close (c ∷ p)

-- `a-z` is a range where something follows the hyphen; a range that runs backwards is empty.
ranges : Text → List (ℕ × ℕ)
ranges [] = []
ranges (a ∷ h ∷ b ∷ rest) =
    let spanned = ranges rest in
    let single = ranges (h ∷ b ∷ rest) in if h == b'-' then (a, b) ∷ spanned else (a, a) ∷ single
ranges (a ∷ rest) = (a, a) ∷ ranges rest

-- The item that an opening bracket starts, and the text behind it.
bracket : Text → Option (Item × Text)
unfolding find_close ranges
bracket [] = none
bracket (c ∷ p) =
    if c == b'!'
    then elim (find_close p) [ none ↦ none | some (a, b) ↦ some (seq true (ranges a), b) ]
    else elim (find_close (c ∷ p)) [ none ↦ none | some (a, b) ↦ some (seq false (ranges a), b) ]

unfoldable pub next_item : ℕ → Text → Item × Text
unfolding bracket
next_item c p =
    if c == b'*'
    then (star, p)
    else if c == b'?'
    then (one, p)
    else if c == b'['
    then elim (bracket p) [ none ↦ (lit c, p) | some r ↦ r ]
    else (lit c, p)

-- The fuel is the length of the pattern; every round consumes a character.
unfoldable pub parse : ℕ → Text → List Item
parse fuel [] = []
parse zero (c ∷ p) = []
parse (suc fuel) (c ∷ p) = let (item, rest) = next_item c p in item ∷ parse fuel rest

in_ranges : ℕ → List (ℕ × ℕ) → Bool
in_ranges c rs = any (λ r. leb r.0 c && leb c r.1) rs

unfoldable pub matches_items : List Item → Text → Bool
unfolding in_ranges
matches_items [] [] = true
matches_items [] (c ∷ s) = false
matches_items (star ∷ p) [] = matches_items p []
matches_items (star ∷ p) (c ∷ s) = matches_items p (c ∷ s) || matches_items (star ∷ p) s
matches_items (one ∷ p) [] = false
matches_items (one ∷ p) (c ∷ s) = matches_items p s
matches_items (lit a ∷ p) [] = false
matches_items (lit a ∷ p) (c ∷ s) = a == c && matches_items p s
matches_items (seq n rs ∷ p) [] = false
matches_items (seq true rs ∷ p) (c ∷ s) = not (in_ranges c rs) && matches_items p s
matches_items (seq false rs ∷ p) (c ∷ s) = in_ranges c rs && matches_items p s

-- `fnmatch.fnmatchcase(workflow_id, pattern)`
unfoldable pub match_workflow_scope : Text → Text → Bool
unfolding parse next_item matches_items in_ranges
match_workflow_scope pattern workflow_id =
    matches_items (parse (length pattern) pattern) workflow_id
