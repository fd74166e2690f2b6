-- ===== src/Service/History/Updates.antt =====
-- An `UPDATE` of the table lets every row evolve if each row that it selects does.
use n8n_operator.Base.{
  ℕ, ◌≡◌, refl, ◌∙◌, ap, Bool, true, false, some, List, [], ◌∷◌, any, first, All, Text, text_eq_iff,
  arith, Bool-cases, inl, inr,
}
use n8n_operator.StateMachine.{State}
use n8n_operator.StateMachine.Legal.{◌⟶◌, here, more}
use n8n_operator.Service.Store.Rows.{Operation, Context}
use n8n_operator.Service.Store.Operations.{
  update_where, moved, at_version, is_unburned, FieldUpdates,
}
use n8n_operator.Service.History.Rows.{RowEvolves, RowEvolves-refl, Follows, IsKeyed, has_id}

module _ (p : Operation → Bool) (f : Operation → Operation) where
  -- Every selected row evolves.
  abbrev pub Selected : List Operation → Type 0
  Selected xs = All (λ o. p o ≡ true → RowEvolves o (f o)) xs

  pub update_where-Follows : (xs : List Operation) → Selected xs → Follows xs (update_where p f xs)
  unfolding update_where
  update_where-Follows [] s = tt
  update_where-Follows (x ∷ xs) (sx, s) = elim (Bool-cases (p x)) [
    | inl chosen ↦ rw chosen (sx chosen, update_where-Follows xs s)
    | inr other ↦ rw other (RowEvolves-refl x, update_where-Follows xs s)
  ]

pub Follows-any :
    (i : Text) (xs : List Operation) (f : Operation → Operation) (p : Operation → Bool)
    → Selected p f xs
    → any (has_id i) (update_where p f xs) ≡ any (has_id i) xs
unfolding update_where
Follows-any i [] f p s = refl
Follows-any i (x ∷ xs) f p (sx, s) = elim (Bool-cases (p x)) [
  | inl chosen ↦
      let same : x.id ≡ (f x).id = ap (λ t. t.id) (sx chosen).same_identity in
      rw (chosen, Follows-any i xs f p s, ← same)
  | inr other ↦ rw (other, Follows-any i xs f p s)
]

pub update_where-IsKeyed :
    (p : Operation → Bool) (f : Operation → Operation) (xs : List Operation)
    → Selected p f xs
    → IsKeyed xs
    → IsKeyed (update_where p f xs)
unfolding update_where
update_where-IsKeyed p f [] s k = tt
update_where-IsKeyed p f (x ∷ xs) (sx, s) (fresh, k) = elim (Bool-cases (p x)) [
  | inl chosen ↦
      let same : x.id ≡ (f x).id = ap (λ t. t.id) (sx chosen).same_identity in
      rw (chosen, ← same) (Follows-any x.id xs f p s ∙ fresh, update_where-IsKeyed p f xs s k)
  | inr other ↦ rw other (Follows-any x.id xs f p s ∙ fresh, update_where-IsKeyed p f xs s k)
]

none_of_id :
    (i : Text) (P : Operation → Type 0) (xs : List Operation)
    → any (has_id i) xs ≡ false
    → All (λ o. has_id i o ≡ true → P o) xs
none_of_id i P [] h = tt
none_of_id i P (x ∷ xs) h = (λ e. cc, none_of_id i P xs (ground arith))

-- With unique ids, what holds of the row that an id names holds of every row of that id.
All-of_id :
    (i : Text) (P : Operation → Type 0) (xs : List Operation)
    → IsKeyed xs
    → ((o : Operation) → first (has_id i) xs ≡ some o → P o)
    → All (λ o. has_id i o ≡ true → P o) xs
All-of_id i P [] k h = tt
All-of_id i P (x ∷ xs) (fresh, k) h = elim (Bool-cases (has_id i x)) [
  | inl it ↦ (λ _. h x (rw it), none_of_id i P xs (rw (← (text_eq_iff x.id i).0 it) fresh))
  | inr other ↦ (λ e. cc, All-of_id i P xs k (λ o e. h o (rw other e)))
]

moved-RowEvolves :
    (ctx : Context) (v : ℕ) (s : State) (u : FieldUpdates) (o : Operation)
    → o.state_version ≡ v
    → o.state ⟶ s
    → RowEvolves o (moved ctx v s u o)
unfolding moved
moved-RowEvolves ctx v s u o version m = record {
  same_identity = refl;
  life = more here m;
  burned = λ _. refl;
  version_le = omega arith;
  same_version = λ e. absurd (omega arith);
}

All-map :
    {P Q : Operation → Type 0}
    → ((o : Operation) → P o → Q o)
    → (xs : List Operation) → All P xs
    → All Q xs
All-map f [] h = tt
All-map f (x ∷ xs) (p, h) = (f x p, All-map f xs h)

-- A compare-and-set is a documented move if the row that the id names, at the expected version,
-- has a state from which the move leads.
pub moved-Selected :
    (ctx : Context) (i : Text) (v : ℕ) (s : State) (u : FieldUpdates) (xs : List Operation)
    → IsKeyed xs
    → ((o : Operation) → first (has_id i) xs ≡ some o → o.state_version ≡ v → o.state ⟶ s)
    → Selected (at_version i v) (moved ctx v s u) xs
moved-Selected ctx i v s u xs k h =
    All-map
      (λ o legal chosen.
        let version : o.state_version ≡ v = ground arith in
        moved-RowEvolves ctx v s u o version (legal (ground arith) version))
      xs (All-of_id i (λ o. o.state_version ≡ v → o.state ⟶ s) xs k h)

pub burned-Selected :
    (ctx : Context) (i : Text) (xs : List Operation)
    → Selected (is_unburned i) (λ o. record o { handle_burned_at = some ctx.now }) xs
burned-Selected ctx i [] = tt
burned-Selected ctx i (x ∷ xs) = (
  λ chosen. record {
    same_identity = refl;
    life = here;
    burned = λ h. ground arith;
    version_le = omega arith;
    same_version = λ _. refl;
  },
  burned-Selected ctx i xs,
)
