-- ===== src/StateMachine/Legal.antt =====
-- The transition diagram of BUILD_PLAN 5.2, written as a relation, against the table's gate.
use n8n_operator.Base.{
  ℕ, suc, ◌+◌, ◌≤◌, ◌<◌, ◌≡◌, refl, ◌↔◌, inl, inr, true, false, Option, none, some, arith,
}
use n8n_operator.Base.{Bool, subst, Bool-cases, Option-cases}
use n8n_operator.StateMachine.{
  passed, State, preparing, invalid, blocked, pending_approval, approved, rejected, expired,
  canceled, executing, succeeded, failed, unknown, TransitionId, t01, t02, t03, t04, t05, t06, t07,
  t08, t09, t10, t11, t12, t13, t14, t15, Transition, is_terminal, validate_transition,
  overdue_expiry_transition,
}

-- One move of an operation that exists.
infix 40 ◌⟶◌
pub data ◌⟶◌ : State → State → Type 0 where
  reject_arguments : preparing ⟶ invalid
  block : preparing ⟶ blocked
  route : preparing ⟶ pending_approval
  auto_approve : preparing ⟶ approved
  approve : pending_approval ⟶ approved
  reject : pending_approval ⟶ rejected
  lapse_approval : pending_approval ⟶ expired
  withdraw : pending_approval ⟶ canceled
  execute : approved ⟶ executing
  lapse_execution : approved ⟶ expired
  withdraw_approved : approved ⟶ canceled
  succeed : executing ⟶ succeeded
  fail : executing ⟶ failed
  lose_track : executing ⟶ unknown

ruleset moves = (
  reject_arguments, block, route, auto_approve, approve, reject, lapse_approval, withdraw, execute,
  lapse_execution, withdraw_approved, succeed, fail, lose_track,
)

pub validate_transition-⟶ :
    (i : TransitionId) (s : State) {t : Transition}
    → validate_transition i (some s) ≡ some t
    → s ⟶ t.to_state
unfolding validate_transition
validate_transition-⟶ t01 s h = grind (arith, moves)
validate_transition-⟶ _ s h = grind (arith, moves)

⟶-validate_transition :
    {s u : State}
    → s ⟶ u
    → (i : TransitionId) × (t : Transition) × (validate_transition i (some s) ≡ some t)
      × (t.to_state ≡ u)
unfolding validate_transition
⟶-validate_transition reject_arguments =
    (t02, record { id = t02; from_state = some preparing; to_state = invalid }, refl, refl)
⟶-validate_transition block =
    (t03, record { id = t03; from_state = some preparing; to_state = blocked }, refl, refl)
⟶-validate_transition route =
    (t04, record { id = t04; from_state = some preparing; to_state = pending_approval }, refl, refl)
⟶-validate_transition auto_approve =
    (t05, record { id = t05; from_state = some preparing; to_state = approved }, refl, refl)
⟶-validate_transition approve =
    (t06, record { id = t06; from_state = some pending_approval; to_state = approved }, refl, refl)
⟶-validate_transition reject =
    (t07, record { id = t07; from_state = some pending_approval; to_state = rejected }, refl, refl)
⟶-validate_transition lapse_approval =
    (t08, record { id = t08; from_state = some pending_approval; to_state = expired }, refl, refl)
⟶-validate_transition withdraw =
    (t09, record { id = t09; from_state = some pending_approval; to_state = canceled }, refl, refl)
⟶-validate_transition execute =
    (t10, record { id = t10; from_state = some approved; to_state = executing }, refl, refl)
⟶-validate_transition lapse_execution =
    (t11, record { id = t11; from_state = some approved; to_state = expired }, refl, refl)
⟶-validate_transition withdraw_approved =
    (t12, record { id = t12; from_state = some approved; to_state = canceled }, refl, refl)
⟶-validate_transition succeed =
    (t13, record { id = t13; from_state = some executing; to_state = succeeded }, refl, refl)
⟶-validate_transition fail =
    (t14, record { id = t14; from_state = some executing; to_state = failed }, refl, refl)
⟶-validate_transition lose_track =
    (t15, record { id = t15; from_state = some executing; to_state = unknown }, refl, refl)

-- For states `s` and `u`, some transition passes the gate from `s` and leads to `u` exactly when
-- the documented diagram has an edge from `s` to `u`.
pub validate_transition_iff :
    (s u : State)
    → ((i : TransitionId) × (t : Transition) × (validate_transition i (some s) ≡ some t)
        × (t.to_state ≡ u))
      ↔ (s ⟶ u)
validate_transition_iff s u = (
  λ (i, t, passes, lands). subst (λ v. s ⟶ v) lands (validate_transition-⟶ i s passes),
  ⟶-validate_transition,
)

-- A transition that passes the gate has the name and the starting state that were asked for.
pub validate_transition_sound :
    (i : TransitionId) (s : Option State) {t : Transition}
    → validate_transition i s ≡ some t
    → (t.id ≡ i) × (t.from_state ≡ s)
unfolding validate_transition
validate_transition_sound t01 s h = grind arith
validate_transition_sound _ s h = grind arith

is_terminal_no_move : {s u : State} → is_terminal s ≡ true → ¬ (s ⟶ u)
unfolding is_terminal
is_terminal_no_move h reject_arguments = cc
is_terminal_no_move h _ = cc

-- A state that is not terminal, with a way out of it.
live_has_move : (s : State) → is_terminal s ≡ false → (u : State) × (s ⟶ u)
unfolding is_terminal
live_has_move preparing h = (invalid, reject_arguments)
live_has_move pending_approval h = (expired, lapse_approval)
live_has_move approved h = (expired, lapse_execution)
live_has_move executing h = (unknown, lose_track)
live_has_move _ h = cc

-- A state is terminal exactly when no transition of any name passes the gate from it.
pub is_terminal_iff :
    (s : State)
    → (is_terminal s ≡ true) ↔ ((i : TransitionId) → validate_transition i (some s) ≡ none)
is_terminal_iff s = (
  λ h i. elim (Option-cases (validate_transition i (some s))) [
    | inl refused ↦ refused
    | inr (t, passes) ↦ absurd (is_terminal_no_move h (validate_transition-⟶ i s passes))
  ],
  λ refused. elim (Bool-cases (is_terminal s)) [
    | inl yes_terminal ↦ yes_terminal
    | inr live ↦
        let (u, m) = live_has_move s live in
        let (i, t, passes, _) = ⟶-validate_transition m in cc (refused i)
  ],
)

-- The life of one operation: the states that it went through, each by one move.
infix 40 ◌⟶*◌
pub data ◌⟶*◌ : State → State → Type 0 where
  here : {s : State} → s ⟶* s
  more : {s t u : State} → s ⟶* t → t ⟶ u → s ⟶* u

pub is_terminal_stays : {s u : State} → is_terminal s ≡ true → s ⟶* u → u ≡ s
is_terminal_stays h here = refl
is_terminal_stays h (more p m) = absurd (is_terminal_no_move (rw (is_terminal_stays h p) h) m)

pub moves_made : {s u : State} → s ⟶* u → ℕ
moves_made here = 0
moves_made (more r m) = suc (moves_made r)

-- How many moves a state has behind it at least.
abbrev rank : State → ℕ
rank preparing = 0
rank pending_approval = 1
rank approved = 2
rank executing = 3
rank _ = 4

move-rank : {s u : State} → s ⟶ u → rank s < rank u
move-rank reject_arguments = omega arith
move-rank _ = omega arith

moves_made-rank : {s u : State} (r : s ⟶* u) → rank s + moves_made r ≤ rank u
unfolding moves_made
moves_made-rank here = omega arith
moves_made-rank (more r m) = omega (arith, moves_made-rank r, move-rank m)

rank-le : (s : State) → rank s ≤ 4
rank-le preparing = omega arith
rank-le _ = omega arith

-- From any state to any state an operation makes at most four moves; none leads back to the state
-- that it left.
pub moves_made-le : {s u : State} (r : s ⟶* u) → moves_made r ≤ 4
moves_made-le {u} r = omega (arith, moves_made-rank r, rank-le u)

abbrev pub is_executed : State → Bool
is_executed executing = true
is_executed succeeded = true
is_executed failed = true
is_executed unknown = true
is_executed _ = false

-- Every life of an operation that ends in execution, or in an outcome of it, is a life that ends
-- in `approved` and goes on from there.
pub passed_approval :
    {u : State} → preparing ⟶* u → is_executed u ≡ true → (preparing ⟶* approved) × (approved ⟶* u)
passed_approval here h = cc
passed_approval (more r execute) h = (r, more here execute)
passed_approval (more r succeed) h = let (p, q) = passed_approval r refl in (p, more q succeed)
passed_approval (more r fail) h = let (p, q) = passed_approval r refl in (p, more q fail)
passed_approval (more r lose_track) h =
    let (p, q) = passed_approval r refl in (p, more q lose_track)
passed_approval (more r _) h = cc

overdue_passes :
    (s : State) (now : ℕ) (a e : Option ℕ) (t : Transition)
    → overdue_expiry_transition s now a e ≡ some t
    → (validate_transition t.id (some s) ≡ some t) × (t.to_state ≡ expired)
unfolding overdue_expiry_transition validate_transition
overdue_passes preparing now a e t h = cc
overdue_passes pending_approval now a e t h = ground arith
overdue_passes approved now a e t h = ground arith
overdue_passes _ now a e t h = cc

-- An operation that waits for a deadline which has passed.
abbrev pub is_overdue : State → ℕ → Option ℕ → Option ℕ → Bool
is_overdue pending_approval now a e = passed now a
is_overdue approved now a e = passed now e
is_overdue _ now a e = false

overdue_none_iff :
    (s : State) (now : ℕ) (a e : Option ℕ)
    → (overdue_expiry_transition s now a e ≡ none) ↔ (is_overdue s now a e ≡ false)
unfolding overdue_expiry_transition
overdue_none_iff preparing now a e = (λ h. refl, λ h. refl)
overdue_none_iff pending_approval now a e = ground arith
overdue_none_iff approved now a e = ground arith
overdue_none_iff _ now a e = (λ h. refl, λ h. refl)

-- No expiry is due exactly when the deadline that the state waits for, if it waits for one, has
-- not passed; and an expiry that is due passes the gate from that state and leads to `expired`.
pub overdue_expiry_transition_lem :
    (s : State) (now : ℕ) (a e : Option ℕ)
    → ((overdue_expiry_transition s now a e ≡ none) ↔ (is_overdue s now a e ≡ false))
      × ((t : Transition)
          → overdue_expiry_transition s now a e ≡ some t
          → (validate_transition t.id (some s) ≡ some t) × (t.to_state ≡ expired))
overdue_expiry_transition_lem s now a e = (overdue_none_iff s now a e, overdue_passes s now a e)
