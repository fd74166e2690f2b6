-- ===== src/StateMachine.antt =====
-- The operation state machine (src/n8n_operator/core/state_machine.py): the states, the table of
-- the fifteen transitions, the gate that every state change passes, and the overdue expiry.
pub mod Legal
use n8n_operator.Base.{
  ℕ, Bool, true, false, Option, none, some, List, [], ◌∷◌, map, any, keep, first, ltb, ◌==◌, ◌&&◌,
  if◌then◌else◌, not,
}

-- `STATES`
pub data State : Type 0 where
  preparing invalid blocked pending_approval approved rejected expired canceled : State
  executing succeeded failed unknown : State

abbrev state_index : State → ℕ
state_index preparing = 0
state_index invalid = 1
state_index blocked = 2
state_index pending_approval = 3
state_index approved = 4
state_index rejected = 5
state_index expired = 6
state_index canceled = 7
state_index executing = 8
state_index succeeded = 9
state_index failed = 10
state_index unknown = 11

abbrev pub state_eq : State → State → Bool
state_eq s t = state_index s == state_index t

-- A transition's name; `unlisted` stands for every string that no row of the table has.
pub data TransitionId : Type 0 where
  t01 t02 t03 t04 t05 t06 t07 t08 t09 t10 t11 t12 t13 t14 t15 unlisted : TransitionId

abbrev id_index : TransitionId → ℕ
id_index t01 = 1
id_index t02 = 2
id_index t03 = 3
id_index t04 = 4
id_index t05 = 5
id_index t06 = 6
id_index t07 = 7
id_index t08 = 8
id_index t09 = 9
id_index t10 = 10
id_index t11 = 11
id_index t12 = 12
id_index t13 = 13
id_index t14 = 14
id_index t15 = 15
id_index unlisted = 16

pub record Transition : Type 0 where
  pub id : TransitionId
  pub from_state : Option State
  pub to_state : State

abbrev row : TransitionId → Option State → State → Transition
row i s t = record { id = i; from_state = s; to_state = t }

abbrev pub transitions : List Transition
transitions =
    row t01 none preparing
    ∷ row t02 (some preparing) invalid
    ∷ row t03 (some preparing) blocked
    ∷ row t04 (some preparing) pending_approval
    ∷ row t05 (some preparing) approved
    ∷ row t06 (some pending_approval) approved
    ∷ row t07 (some pending_approval) rejected
    ∷ row t08 (some pending_approval) expired
    ∷ row t09 (some pending_approval) canceled
    ∷ row t10 (some approved) executing
    ∷ row t11 (some approved) expired
    ∷ row t12 (some approved) canceled
    ∷ row t13 (some executing) succeeded
    ∷ row t14 (some executing) failed
    ∷ row t15 (some executing) unknown
    ∷ []

-- `TRANSITIONS_BY_ID.get`
transition_by_id : TransitionId → Option Transition
transition_by_id i = first (λ t. id_index t.id == id_index i) transitions

abbrev pub opt_state_eq : Option State → Option State → Bool
opt_state_eq none none = true
opt_state_eq (some s) (some t) = state_eq s t
opt_state_eq _ _ = false

abbrev all_states : List State
all_states =
    preparing ∷ invalid ∷ blocked ∷ pending_approval ∷ approved ∷ rejected ∷ expired ∷ canceled
    ∷ executing ∷ succeeded ∷ failed ∷ unknown ∷ []

-- `state in _FROM_STATES`
abbrev is_from_state : State → Bool
is_from_state s = any (λ t. opt_state_eq t.from_state (some s)) transitions

abbrev terminal_states : List State
terminal_states = keep (λ s. not (is_from_state s)) all_states

unfoldable pub is_terminal : State → Bool
is_terminal s = any (state_eq s) terminal_states

-- `none` is `InvalidStateTransitionError`.
unfoldable pub validate_transition : TransitionId → Option State → Option Transition
unfolding transition_by_id
validate_transition i from = elim (transition_by_id i) [
  | none ↦ none
  | some t ↦ if opt_state_eq t.from_state from then some t else none
]

abbrev pub passed : ℕ → Option ℕ → Bool
passed now none = false
passed now (some deadline) = ltb deadline now

unfoldable pub overdue_expiry_transition : State → ℕ → Option ℕ → Option ℕ → Option Transition
unfolding transition_by_id
overdue_expiry_transition state now approval_expires_at execution_deadline =
    if state_eq state pending_approval && passed now approval_expires_at
    then transition_by_id t08
    else if state_eq state approved && passed now execution_deadline
    then transition_by_id t11
    else none
