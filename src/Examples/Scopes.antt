-- ===== src/Examples/Scopes.antt =====
-- The SQL `LIKE` of the translated scope patterns, as a function.
use n8n_operator.Authorization.Glob.{match_workflow_scope}
use n8n_operator.Authorization.Like.{
  workflow_scope_to_sql_like_lem, is_plain, workflow_scope_to_sql_like, SqlLike, backslash,
}
use n8n_operator.Base.{
  refl, ◌≡◌, true, false, Bool, ℕ, ◌&&◌, ◌||◌, ◌==◌, if◌then◌else◌, [], ◌∷◌, Text, codes, arith,
}

abbrev some_suffix : (Text → Bool) → Text → Bool
some_suffix m [] = m []
some_suffix m (c ∷ s) = m (c ∷ s) || some_suffix m s

abbrev after_any : (Text → Bool) → Text → Bool
after_any m [] = false
after_any m (c ∷ s) = m s

abbrev after_char : ℕ → (Text → Bool) → Text → Bool
after_char d m [] = false
after_char d m (c ∷ s) = d == c && m s

like_run : Text → Text → Bool
like_run [] [] = true
like_run [] (c ∷ s) = false
like_run (d ∷ []) s =
    if d == b'%'
    then true
    else if d == b'_'
    then after_any (like_run []) s
    else after_char d (like_run []) s
like_run (d ∷ e ∷ p) s =
    let rest = like_run (e ∷ p) in
    let escaped = like_run p in
    if d == b'%'
    then some_suffix rest s
    else if d == b'_'
    then after_any rest s
    else if d == backslash
    then after_char e escaped s
    else after_char d rest s

percent-end : (p : Text) → like_run (b'%' ∷ p) [] ≡ like_run p []
unfolding like_run
percent-end [] = refl
percent-end (e ∷ p) = refl

percent-more :
    (p : Text) (c : ℕ) (s : Text)
    → like_run (b'%' ∷ p) (c ∷ s) ≡ (like_run p (c ∷ s) || like_run (b'%' ∷ p) s)
unfolding like_run
percent-more [] c s = refl
percent-more (e ∷ p) c s = refl

underscore-end : (p : Text) → like_run (b'_' ∷ p) [] ≡ false
unfolding like_run
underscore-end [] = refl
underscore-end (e ∷ p) = refl

underscore-more : (p : Text) (c : ℕ) (s : Text) → like_run (b'_' ∷ p) (c ∷ s) ≡ like_run p s
unfolding like_run
underscore-more [] c s = refl
underscore-more (e ∷ p) c s = refl

plain-end : (d : ℕ) (p : Text) → is_plain d ≡ true → like_run (d ∷ p) [] ≡ false
unfolding like_run
plain-end d [] h = ground arith
plain-end d (e ∷ p) h = ground arith

plain-more :
    (d : ℕ) (p : Text) (c : ℕ) (s : Text)
    → is_plain d ≡ true
    → like_run (d ∷ p) (c ∷ s) ≡ (d == c && like_run p s)
unfolding like_run
plain-more d [] c s h = ground arith
plain-more d (e ∷ p) c s h = ground arith

abbrev sql : SqlLike
unfolding like_run
sql = record {
  like = like_run;
  same = λ c d. c == d;
  end_end = refl;
  end_more = λ c s. refl;
  percent_end = percent-end;
  percent_more = percent-more;
  underscore_end = underscore-end;
  underscore_more = underscore-more;
  escape_end = λ d p. refl;
  escape_more = λ d p c s. refl;
  plain_end = plain-end;
  plain_more = plain-more;
}

workflow_scope_to_sql_like_lem_example :
    sql.like (workflow_scope_to_sql_like (codes "billing_*")) (codes "billing_close")
    ≡ match_workflow_scope (codes "billing_*") (codes "billing_close")
unfolding sql
workflow_scope_to_sql_like_lem_example =
    workflow_scope_to_sql_like_lem sql (codes "billing_*") refl (codes "billing_close")
      λ c d _ _. refl
