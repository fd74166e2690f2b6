-- ===== src/Examples/Machine.antt =====
-- Runs of src/n8n_operator/core/state_machine.py.
use n8n_operator.StateMachine.Legal.{
  validate_transition_iff, overdue_expiry_transition_lem, ◌⟶◌, is_overdue, is_terminal_iff,
  validate_transition_sound,
}
use n8n_operator.StateMachine.{
  expired, executing, t10, approved, succeeded, Transition, TransitionId, overdue_expiry_transition,
  validate_transition, is_terminal,
}
use n8n_operator.Base.{refl, ◌≡◌, ◌↔◌, true, false, none, some}

validate_transition_iff_example :
    ((i : TransitionId) × (t : Transition) × (validate_transition i (some approved) ≡ some t)
      × (t.to_state ≡ executing))
    ↔ (approved ⟶ executing)
validate_transition_iff_example = validate_transition_iff approved executing

abbrev execution : Transition
execution = record { id = t10; from_state = some approved; to_state = executing }

validate_transition_sound_example : (execution.id ≡ t10) × (execution.from_state ≡ some approved)
unfolding validate_transition
validate_transition_sound_example =
    validate_transition_sound t10 (some approved) {t = execution} refl

is_terminal_iff_example :
    (is_terminal succeeded ≡ true)
    ↔ ((i : TransitionId) → validate_transition i (some succeeded) ≡ none)
is_terminal_iff_example = is_terminal_iff succeeded

overdue_expiry_transition_lem_example :
    ((overdue_expiry_transition approved 10 none (some 9) ≡ none)
      ↔ (is_overdue approved 10 none (some 9) ≡ false))
    × ((t : Transition)
        → overdue_expiry_transition approved 10 none (some 9) ≡ some t
        → (validate_transition t.id (some approved) ≡ some t) × (t.to_state ≡ expired))
overdue_expiry_transition_lem_example = overdue_expiry_transition_lem approved 10 none (some 9)
