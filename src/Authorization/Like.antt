-- ===== src/Authorization/Like.antt =====
-- `workflow_scope_to_sql_like` of src/n8n_operator/core/authorization.py: the scope pattern as a
-- SQL `LIKE` pattern with `ESCAPE '\'`, against `match_workflow_scope`.
use n8n_operator.Base.{
  ℕ, ◌≡◌, ◌≢◌, Bool, true, false, ◌&&◌, ◌||◌, [], ◌∷◌, ◌++◌, Text, ◌==◌, if◌then◌else◌, length, any,
  arith, Bool-cases, inl, inr,
}
use n8n_operator.Authorization.Glob.{
  Item, star, one, lit, parse, next_item, matches_items, match_workflow_scope,
}

abbrev pub backslash : ℕ
backslash = 92

-- `str.replace` with a needle of one character
replace_char : ℕ → Text → Text → Text
replace_char c new [] = []
replace_char c new (d ∷ s) =
    let rest = replace_char c new s in if d == c then new ++ rest else d ∷ rest

unfoldable pub workflow_scope_to_sql_like : Text → Text
unfolding replace_char
workflow_scope_to_sql_like pattern =
    let slashes = replace_char backslash (backslash ∷ backslash ∷ []) pattern in
    let percents = replace_char b'%' (backslash ∷ b'%' ∷ []) slashes in
    let escaped = replace_char b'_' (backslash ∷ b'_' ∷ []) percents in
    replace_char b'?' (b'_' ∷ []) (replace_char b'*' (b'%' ∷ []) escaped)

-- A character that stands for itself in a `LIKE` pattern.
abbrev pub is_plain : ℕ → Bool
is_plain c =
    if c == b'%' then false else if c == b'_' then false else if c == backslash then false else true

-- What SQL says of `text LIKE pattern ESCAPE '\'`. How two characters are compared depends on the
-- database: PostgreSQL does so exactly, SQLite without regard to the case of ASCII letters.
pub record SqlLike : Type 0 where
  pub like : Text → Text → Bool
  pub same : ℕ → ℕ → Bool
  pub end_end : like [] [] ≡ true
  pub end_more : (c : ℕ) (s : Text) → like [] (c ∷ s) ≡ false
  pub percent_end : (p : Text) → like (b'%' ∷ p) [] ≡ like p []
  pub percent_more :
      (p : Text) (c : ℕ) (s : Text)
      → like (b'%' ∷ p) (c ∷ s) ≡ (like p (c ∷ s) || like (b'%' ∷ p) s)
  pub underscore_end : (p : Text) → like (b'_' ∷ p) [] ≡ false
  pub underscore_more : (p : Text) (c : ℕ) (s : Text) → like (b'_' ∷ p) (c ∷ s) ≡ like p s
  pub escape_end : (d : ℕ) (p : Text) → like (backslash ∷ d ∷ p) [] ≡ false
  pub escape_more :
      (d : ℕ) (p : Text) (c : ℕ) (s : Text)
      → like (backslash ∷ d ∷ p) (c ∷ s) ≡ (same d c && like p s)
  pub plain_end : (d : ℕ) (p : Text) → is_plain d ≡ true → like (d ∷ p) [] ≡ false
  pub plain_more :
      (d : ℕ) (p : Text) (c : ℕ) (s : Text)
      → is_plain d ≡ true
      → like (d ∷ p) (c ∷ s) ≡ (same d c && like p s)

-- The translation, one character at a time.
abbrev like_char : ℕ → Text → Text
like_char c rest =
    if c == b'*'
    then b'%' ∷ rest
    else if c == b'?'
    then b'_' ∷ rest
    else if is_plain c
    then c ∷ rest
    else backslash ∷ c ∷ rest

to_like-cons :
    (c : ℕ) (p : Text)
    → workflow_scope_to_sql_like (c ∷ p) ≡ like_char c (workflow_scope_to_sql_like p)
unfolding workflow_scope_to_sql_like
to_like-cons c p = ground arith

-- The pattern has no opening bracket.
abbrev pub no_bracket : Text → Bool
no_bracket [] = true
no_bracket (c ∷ p) = if c == b'[' then false else no_bracket p

abbrev plain_item : ℕ → Item
plain_item c = if c == b'*' then star else if c == b'?' then one else lit c

parse-cons :
    (c : ℕ) (p : Text)
    → no_bracket (c ∷ p) ≡ true
    → parse (length (c ∷ p)) (c ∷ p) ≡ plain_item c ∷ parse (length p) p
unfolding parse next_item
parse-cons c p h = ground arith

module _ (sql : SqlLike) where
  open sql use {like, same}

  -- On the characters of the two texts, the comparison is that of equality.
  abbrev pub ComparesExactly : Text → Text → Type 0
  ComparesExactly p s =
      (c d : ℕ) → any (λ x. x == c) p ≡ true → any (λ x. x == d) s ≡ true → same c d ≡ (c == d)

  less_pattern : (c : ℕ) (p s : Text) → ComparesExactly (c ∷ p) s → ComparesExactly p s
  less_pattern c p s e a b in_p in_s = e a b (ground arith) in_s

  less_text : (d : ℕ) (p s : Text) → ComparesExactly p (d ∷ s) → ComparesExactly p s
  less_text d p s e a b in_p in_s = e a b in_p (ground arith)

  like_char-end : (c : ℕ) (p : Text) → c ≢ b'*' → like (like_char c p) [] ≡ false
  like_char-end c p h = ground (arith, sql.underscore_end p, sql.escape_end c p, sql.plain_end c p)

  like_char-more :
      (c : ℕ) (p : Text) (d : ℕ) (s : Text)
      → c ≢ b'*'
      → c ≢ b'?'
      → like (like_char c p) (d ∷ s) ≡ (same c d && like p s)
  like_char-more c p d s h k = ground (arith, sql.escape_more c p d s, sql.plain_more c p d s)

  abbrev Agree : Text → Text → Type 0
  Agree p s =
      ComparesExactly p s
      → like (workflow_scope_to_sql_like p) s ≡ matches_items (parse (length p) p) s

  like_star :
      (p : Text)
      → ((s : Text) → Agree p s)
      → (s : Text) → ComparesExactly p s
      → like (b'%' ∷ workflow_scope_to_sql_like p) s ≡ matches_items (star ∷ parse (length p) p) s
  unfolding matches_items
  like_star p ih [] e = cc (sql.percent_end (workflow_scope_to_sql_like p), ih [] e)
  like_star p ih (c ∷ s) e = rw (
    sql.percent_more (workflow_scope_to_sql_like p) c s,
    ih (c ∷ s) e,
    like_star p ih s (less_text c p s e),
  )

  like_other :
      (c : ℕ) (p : Text)
      → c ≢ b'*'
      → ((s : Text) → Agree p s)
      → (s : Text) → ComparesExactly (c ∷ p) s
      → like (like_char c (workflow_scope_to_sql_like p)) s
        ≡ matches_items (plain_item c ∷ parse (length p) p) s
  unfolding matches_items
  like_other c p h ih [] e = ground (arith, like_char-end c (workflow_scope_to_sql_like p) h)
  like_other c p h ih (d ∷ s) e =
      let exact = e c d (ground arith) (ground arith) in
      let rest = ih s (less_text d p s (less_pattern c p (d ∷ s) e)) in
      ground (
        arith,
        like_char-more c (workflow_scope_to_sql_like p) d s h,
        sql.underscore_more (workflow_scope_to_sql_like p) d s,
        rest,
        exact,
      )

  Agree-nil : (s : Text) → Agree [] s
  unfolding workflow_scope_to_sql_like parse matches_items
  Agree-nil [] e = sql.end_end
  Agree-nil (c ∷ s) e = sql.end_more c s

  agree : (p : Text) → no_bracket p ≡ true → (s : Text) → Agree p s
  agree [] h s e = Agree-nil s e
  agree (c ∷ p) h s e =
      let ih = agree p (ground arith) in
      elim (Bool-cases (c == b'*')) [
        | inl starred ↦
            rw (to_like-cons c p, parse-cons c p h, starred)
              (like_star p ih s (less_pattern c p s e))
        | inr other ↦ rw (to_like-cons c p, parse-cons c p h) (like_other c p (ground arith) ih s e)
      ]

  -- If the scope pattern has no opening bracket, and the database compares the characters of the pattern
  -- with those of a workflow id exactly, the translated pattern selects the id if and only if the scope
  -- pattern matches it.
  pub workflow_scope_to_sql_like_lem :
      (p : Text)
      → no_bracket p ≡ true
      → (s : Text) → ComparesExactly p s
      → like (workflow_scope_to_sql_like p) s ≡ match_workflow_scope p s
  unfolding match_workflow_scope
  workflow_scope_to_sql_like_lem p h s e = agree p h s e
