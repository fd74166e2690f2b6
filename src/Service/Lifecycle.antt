-- ===== src/Service/Lifecycle.antt =====
-- The abstract view of the service: for every operation id, nothing yet, or a state of the documented
-- diagram; and that calls only make steps of that view.
use n8n_operator.Service.History.Rows.{first-Follows, Born, has_id, IsKeyed, Follows}
use n8n_operator.Service.Store.Rows.{Operation, Db, Context}
use n8n_operator.Service.Store.Operations.{get_operation}
use n8n_operator.StateMachine.{preparing, State}
use n8n_operator.Base.{
  ◌∙◌, sym, subst, refl, [], arith, false, text_eq, ap, ◌∷◌, ◌≡◌, first, ℕ, some, List, Option,
  none, Text,
}
use n8n_operator.Service.Calls.{first-Born, after-Evolves, after}
use n8n_operator.Service.Sessions.{Call}
use n8n_operator.StateMachine.Legal.{here, more, ◌⟶◌, ◌⟶*◌}

-- What the view shows of one id.
abbrev pub Phase : Type 0
Phase = Option State

abbrev pub phase_of : Option Operation → Phase
phase_of none = none
phase_of (some o) = some o.state

unfoldable pub phase : Text → Db → Phase
phase i d = phase_of (get_operation i d)

-- A creation, or a move of the diagram.
infix 40 ◌↝◌
pub data ◌↝◌ : Phase → Phase → Type 0 where
  create : none ↝ some preparing
  move : {s t : State} → s ⟶ t → some s ↝ some t

infix 40 ◌↝*◌
pub data ◌↝*◌ : Phase → Phase → Type 0 where
  stay : {p : Phase} → p ↝* p
  step : {p q r : Phase} → p ↝* q → q ↝ r → p ↝* r

life-steps : {s t : State} → s ⟶* t → some s ↝* some t
life-steps here = stay
life-steps (more l m) = step (life-steps l) (move m)

born-steps : {t : State} → preparing ⟶* t → none ↝* some t
born-steps here = step stay create
born-steps (more l m) = step (born-steps l) (move m)

first-new :
    (i : Text) (xs ys : List Operation) (o : Operation)
    → Follows xs ys
    → first (has_id i) xs ≡ none
    → first (has_id i) ys ≡ some o
    → Born o
first-new i [] ys o born gone found = first-Born i ys o born found
first-new i (x ∷ xs) [] o p gone found = absurd p
first-new i (x ∷ xs) (y ∷ ys) o (e, p) gone found =
    let same : x.id ≡ y.id = ap (λ t. t.id) e.same_identity in
    let other : text_eq x.id i ≡ false = ground arith in
    let other' : text_eq y.id i ≡ false = rw (← same) other in
    first-new i xs ys o p (ground arith) (ground arith)

phases :
    (i : Text) (d c : Db) (before later : Option Operation)
    → Follows d.operations c.operations
    → first (has_id i) d.operations ≡ before
    → first (has_id i) c.operations ≡ later
    → phase_of before ↝* phase_of later
phases i d c none none p gone still = stay
phases i d c none (some o) p gone found =
    born-steps (first-new i d.operations c.operations o p gone found)
phases i d c (some o) later p found is_later =
    let (o', found', e) = first-Follows i d.operations c.operations p found in
    subst (λ x. some o.state ↝* phase_of x) (sym found' ∙ is_later) (life-steps e.life)

-- Whatever calls are made, what becomes of every id is a sequence of abstract steps: it is created in
-- `preparing` if it was not there, and then makes documented moves. The ids of the operations are
-- assumed to be distinct.
pub after_refines :
    (ctx : Context) (calls : List (ℕ × Call)) (d : Db) (i : Text)
    → IsKeyed d.operations
    → phase i d ↝* phase i (after ctx calls d)
unfolding phase get_operation
after_refines ctx calls d i k =
    phases i d (after ctx calls d) (get_operation i d) (get_operation i (after ctx calls d))
      (after-Evolves ctx calls d k).rows refl refl
