-- ===== src/Service/History/Rows.antt =====
-- One row's history, and the histories of all rows.
use n8n_operator.Base.{
  All, ◌≤◌, ◌≡◌, refl, ◌∙◌, ap, Bool, true, false, some, is_some, List, [], ◌∷◌, ◌++◌, any, first,
  Text, text_eq, text_eq_iff, arith, Bool-cases, inl, inr,
}
use n8n_operator.StateMachine.{State, preparing}
use n8n_operator.StateMachine.Legal.{◌⟶*◌, here, more}
use n8n_operator.Service.Store.Rows.{Operation}

pub append_life : {s t u : State} → s ⟶* t → t ⟶* u → s ⟶* u
append_life p here = p
append_life p (more q m) = more (append_life p q) m

-- `o` became `o'`: by documented transitions, each of which raises the version; its identity and a
-- burned handle stay as they are.
pub record RowEvolves (o o' : Operation) : Type 0 where
  pub same_identity : o.identity ≡ o'.identity
  pub life : o.state ⟶* o'.state
  pub burned : is_some o.handle_burned_at ≡ true → o'.handle_burned_at ≡ o.handle_burned_at
  pub version_le : o.state_version ≤ o'.state_version
  pub same_version : o.state_version ≡ o'.state_version → o.state ≡ o'.state

pub RowEvolves-refl : (o : Operation) → RowEvolves o o
RowEvolves-refl o = record {
  same_identity = refl;
  life = here;
  burned = λ _. refl;
  version_le = omega arith;
  same_version = λ _. refl;
}

pub RowEvolves-trans : {o p q : Operation} → RowEvolves o p → RowEvolves p q → RowEvolves o q
RowEvolves-trans {o} {p} {q} a b = record {
  same_identity = a.same_identity ∙ b.same_identity;
  life = append_life a.life b.life;
  burned = λ h. b.burned (rw (a.burned h) h) ∙ a.burned h;
  version_le = omega (arith, a.version_le, b.version_le);
  same_version = λ e.
      a.same_version (omega (arith, e, a.version_le, b.version_le))
      ∙ b.same_version (omega (arith, e, a.version_le, b.version_le));
}

-- The states of a new row go back to its creation.
abbrev pub Born : Operation → Type 0
Born o = preparing ⟶* o.state

-- Every row became the row in its place; new rows stand behind.
abbrev pub Follows : List Operation → List Operation → Type 0
Follows [] ys = All Born ys
Follows (x ∷ xs) [] = ⊥
Follows (x ∷ xs) (y ∷ ys) = RowEvolves x y × Follows xs ys

pub Follows-refl : (xs : List Operation) → Follows xs xs
Follows-refl [] = tt
Follows-refl (x ∷ xs) = (RowEvolves-refl x, Follows-refl xs)

pub All-Follows : (xs ys : List Operation) → All Born xs → Follows xs ys → All Born ys
All-Follows [] ys a p = p
All-Follows (x ∷ xs) [] a p = absurd p
All-Follows (x ∷ xs) (y ∷ ys) (b, a) (e, p) = (append_life b e.life, All-Follows xs ys a p)

pub Follows-trans : (xs ys zs : List Operation) → Follows xs ys → Follows ys zs → Follows xs zs
Follows-trans [] ys zs p q = All-Follows ys zs p q
Follows-trans (x ∷ xs) [] zs p q = absurd p
Follows-trans (x ∷ xs) (y ∷ ys) [] p q = absurd q
Follows-trans (x ∷ xs) (y ∷ ys) (z ∷ zs) (a, p) (b, q) =
    (RowEvolves-trans a b, Follows-trans xs ys zs p q)

pub Follows-append : (xs ys : List Operation) → All Born ys → Follows xs (xs ++ ys)
Follows-append [] ys a = a
Follows-append (x ∷ xs) ys a = (RowEvolves-refl x, Follows-append xs ys a)

abbrev pub has_id : Text → Operation → Bool
has_id i o = text_eq o.id i

-- The primary key: no two rows have one id.
abbrev pub IsKeyed : List Operation → Type 0
IsKeyed [] = Unit
IsKeyed (x ∷ xs) = (any (has_id x.id) xs ≡ false) × IsKeyed xs

-- The row that an id names goes on being the row that the id names.
pub first-Follows :
    (i : Text) (xs ys : List Operation) {o : Operation}
    → Follows xs ys
    → first (has_id i) xs ≡ some o
    → (o' : Operation) × (first (has_id i) ys ≡ some o') × RowEvolves o o'
first-Follows i [] ys p h = cc
first-Follows i (x ∷ xs) [] p h = absurd p
first-Follows i (x ∷ xs) (y ∷ ys) {o} (a, p) h = elim (Bool-cases (text_eq x.id i)) [
  | inl here_it_is ↦
      let same : x.id ≡ y.id = ap (λ t. t.id) a.same_identity in
      let found : x ≡ o = ground arith in (y, rw (← same, here_it_is), rw (← found) a)
  | inr other ↦
      let same : x.id ≡ y.id = ap (λ t. t.id) a.same_identity in
      let (o', found, e) = first-Follows i xs ys p (ground arith) in
      (o', rw (← same, other) found, e)
]

pub first-has_id :
    (i : Text) (xs : List Operation) {o : Operation} → first (has_id i) xs ≡ some o → o.id ≡ i
first-has_id i [] h = cc
first-has_id i (x ∷ xs) {o} h = ground (arith, text_eq_iff x.id i, first-has_id i xs {o = o})
