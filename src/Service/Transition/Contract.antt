-- ===== src/Service/Transition/Contract.antt =====
-- What `_apply_and_audit` of src/n8n_operator/core/service.py returns and leaves behind, for a row
-- that was read earlier and may have been moved on by another session since.
use n8n_operator.Service.Transition.Selected.{
  on_optimistic_lock-lost, first-moved, on_optimistic_lock-ok, count-at_version, moved_db,
  on_optimistic_lock-invalid, audited_db,
}
use n8n_operator.Service.Outcome.Steps.{>>=-ok, >>=-err}
use n8n_operator.Service.Store.Logs.{write_audit}
use n8n_operator.Service.Outcome.{
  assertion, gets, pure, Result, invalid_state_transition, optimistic_lock, err, ok, or_raise,
  ◌>>=◌,
}
use n8n_operator.Service.Transition.{
  get_again, write_audit, attempt_with_retry, apply_and_audit, validate_transition, Transition,
  ◌>>=◌, transition_outcome, operation_subject, transition_action, attempt,
}
use n8n_operator.Json.{Json}
use n8n_operator.StateMachine.{validate_transition, Transition, State, TransitionId}
use n8n_operator.Service.History.Rows.{IsKeyed}
use n8n_operator.Service.Store.Operations.{
  compare_and_set_state, apply_transition, get_operation, FieldUpdates, moved, at_version,
  update_where,
}
use n8n_operator.Service.Store.Rows.{Db, Context, Operation}
use n8n_operator.Base.{
  sym, ap, ◌∙◌, none, ◌≢◌, ==_iff, some, ◌≡◌, refl, Option, Text, inl, inr, ◌==◌, arith, false,
  Bool-cases, Bool, true,
}

module _ (ctx : Context) (d : Db) (k : IsKeyed d.operations) (now : Operation)
    (present : get_operation now.id d ≡ some now) (id : TransitionId) (actor : Text) (detail : Json)
    (u : FieldUpdates) where
  set_moves :
      (s : State)
      → compare_and_set_state ctx now.id now.state_version s u d
        ≡ ok (moved ctx now.state_version s u now) (record d {
          operations =
              update_where
                (at_version now.id now.state_version)
                (moved ctx now.state_version s u)
                d.operations;
        })
  unfolding compare_and_set_state get_operation
  set_moves s =
      let one = count-at_version now.id now.state_version d.operations k present in
      let same = (==_iff now.state_version now.state_version).1 refl in
      rw (one, same, first-moved ctx now.id now.state_version s u d.operations present refl) refl

  transition_moves :
      (s : State)
      → apply_transition ctx now.id now.state_version s id (some now.state) actor detail u d
        ≡ ok (moved ctx now.state_version s u now) (moved_db ctx now id s actor detail u d)
  unfolding apply_transition
  transition_moves s = rw (apply_transition, set_moves s) refl

  attempt_moves :
      (t : Transition)
      → validate_transition id (some now.state) ≡ some t
      → attempt ctx now id actor detail u d
        ≡ ok
            (moved ctx now.state_version t.to_state u now)
            (moved_db ctx now id t.to_state actor detail u d)
  unfolding attempt ◌>>=◌ or_raise
  attempt_moves t passes = rw passes (transition_moves t.to_state)

  attempt_refused :
      (row : Operation)
      → validate_transition id (some row.state) ≡ none
      → attempt ctx row id actor detail u d ≡ err invalid_state_transition none
  unfolding attempt ◌>>=◌ or_raise
  attempt_refused row refused = rw refused refl

  -- The row that was read has been moved on since.
  attempt_stale :
      (row : Operation) (t : Transition)
      → row.id ≡ now.id
      → row.state_version ≢ now.state_version
      → validate_transition id (some row.state) ≡ some t
      → attempt ctx row id actor detail u d ≡ err optimistic_lock none
  unfolding attempt ◌>>=◌ or_raise apply_transition compare_and_set_state
  attempt_stale row t same stale passes =
      let none_left = count-at_version now.id row.state_version d.operations k present in
      let other : (now.state_version == row.state_version) ≡ false = ground arith in
      rw (passes, apply_transition, compare_and_set_state, same, none_left, other) refl

  attempt_same :
      (row : Operation)
      → row.id ≡ now.id
      → row.state_version ≡ now.state_version
      → row.state ≡ now.state
      → attempt ctx row id actor detail u d ≡ attempt ctx now id actor detail u d
  unfolding attempt
  attempt_same row same version unmoved = rw (same, version, unmoved) refl

  -- What becomes of the row as it is now, with the audit that `finish` adds.
  abbrev pub settled : (Db → Db) → Option Transition → Result Db Operation
  settled finish none = err invalid_state_transition none
  settled finish (some t) =
      ok (moved ctx now.state_version t.to_state u now)
        (finish (moved_db ctx now id t.to_state actor detail u d))

  attempt-settled :
      (row : Operation) (v : Option Transition)
      → validate_transition id (some now.state) ≡ v
      → row.id ≡ now.id
      → (row.state_version ≡ now.state_version) × (row.state ≡ now.state)
      → attempt ctx row id actor detail u d ≡ settled (λ c. c) v
  attempt-settled row none refused same (version, unmoved) =
      attempt_same row same version unmoved ∙ attempt_refused now refused
  attempt-settled row (some t) passes same (version, unmoved) =
      attempt_same row same version unmoved ∙ attempt_moves t passes

  again_settled :
      (row : Operation) (v : Option Transition)
      → ctx.holds ctx.now row ≡ false
      → validate_transition id (some now.state) ≡ v
      → row.id ≡ now.id
      → (gets (get_again ctx row) >>= λ current.
            or_raise current assertion >>= λ current_row. attempt ctx current_row id actor detail u)
          d
        ≡ settled (λ c. c) v
  unfolding ◌>>=◌ gets or_raise get_again
  again_settled row v gone passes same =
      rw (gone, same, present) (attempt-settled now v passes refl (refl, refl))

  -- The session still holds the row as it was read, and tries that again.
  again_stale :
      (row : Operation) (t : Transition)
      → ctx.holds ctx.now row ≡ true
      → row.id ≡ now.id
      → row.state_version ≢ now.state_version
      → validate_transition id (some row.state) ≡ some t
      → (gets (get_again ctx row) >>= λ current.
            or_raise current assertion >>= λ current_row. attempt ctx current_row id actor detail u)
          d
        ≡ err optimistic_lock none
  unfolding ◌>>=◌ gets or_raise get_again
  again_stale row t held same stale passed = rw held (attempt_stale row t same stale passed)

  -- What a transition that is asked for the row ends with, with the audit that `finish` adds.
  abbrev pub outcome : Bool → Bool → (Db → Db) → Option Transition → Result Db Operation
  outcome true held finish v = settled finish v
  outcome false true finish v = err optimistic_lock none
  outcome false false finish v = settled finish v

  abbrev pub decided : Operation → (Db → Db) → Option Transition → Result Db Operation
  decided row finish v =
      outcome (row.state_version == now.state_version) (ctx.holds ctx.now row) finish v

  lock_settled :
      (row : Operation) (t : Transition) (v : Option Transition)
      → validate_transition id (some now.state) ≡ v
      → row.id ≡ now.id
      → (row.state_version ≡ now.state_version → row.state ≡ now.state)
      → validate_transition id (some row.state) ≡ some t
      → attempt_with_retry ctx row id actor detail u d
        ≡ outcome (row.state_version == now.state_version) (ctx.holds ctx.now row) (λ c. c) v
  unfolding attempt_with_retry
  lock_settled row t v passes same unmoved passed =
      elim (Bool-cases (row.state_version == now.state_version)) [
        | inl fresh ↦
            let version = (==_iff row.state_version now.state_version).0 fresh in
            onto fresh (ctx.holds ctx.now row)
              (direct v (attempt-settled row v passes same (version, unmoved version)))
        | inr stale ↦
            let moved_on : row.state_version ≢ now.state_version = ground arith in
            let lost = on_optimistic_lock-lost _ _ d (attempt_stale row t same moved_on passed) in
            elim (Bool-cases (ctx.holds ctx.now row)) [
              | inl held ↦
                  lost_onto stale true held (lost ∙ again_stale row t held same moved_on passed)
              | inr gone ↦ lost_onto stale false gone (lost ∙ again_settled row v gone passes same)
            ]
      ]
    where
      onto :
          {b : Bool}
          → b ≡ true
          → (held : Bool) → attempt_with_retry ctx row id actor detail u d ≡ settled (λ c. c) v
          → attempt_with_retry ctx row id actor detail u d ≡ outcome b held (λ c. c) v
      onto e held h = h ∙ sym (ap (λ x. outcome x held (λ c. c) v) e)

      lost_onto :
          {b held : Bool}
          → b ≡ false
          → (known : Bool) → held ≡ known
          → attempt_with_retry ctx row id actor detail u d ≡ outcome false known (λ c. c) v
          → attempt_with_retry ctx row id actor detail u d ≡ outcome b held (λ c. c) v
      lost_onto {b} {held} e known e' h =
          h ∙ sym (ap (λ x. outcome x held (λ c. c) v) e ∙ ap (λ y. outcome false y (λ c. c) v) e')

      direct :
          (v : Option Transition)
          → attempt ctx row id actor detail u d ≡ settled (λ c. c) v
          → attempt_with_retry ctx row id actor detail u d ≡ settled (λ c. c) v
      direct none e = on_optimistic_lock-invalid _ _ d e
      direct (some s) e = on_optimistic_lock-ok _ _ d e

  audit_settled :
      (row : Operation) (t : Transition)
      → row.id ≡ now.id
      → (write_audit ctx actor
              (transition_action id)
              operation_subject
              row.id
              (transition_outcome id)
              detail
            >>= λ _. pure (moved ctx now.state_version t.to_state u now))
          (moved_db ctx now id t.to_state actor detail u d)
        ≡ settled (audited_db ctx now id actor detail) (some t)
  unfolding ◌>>=◌ write_audit pure
  audit_settled row t same = rw same refl

  pub apply_and_audit_lem :
      (row : Operation) (t : Transition)
      → row.id ≡ now.id
      → (row.state_version ≡ now.state_version → row.state ≡ now.state)
      → validate_transition id (some row.state) ≡ some t
      → apply_and_audit ctx row id actor detail u d
        ≡ decided row (audited_db ctx now id actor detail) (validate_transition id (some now.state))
  unfolding apply_and_audit
  apply_and_audit_lem row t same unmoved passed =
      go (row.state_version == now.state_version) (ctx.holds ctx.now row)
        (validate_transition id (some now.state))
        (lock_settled row t (validate_transition id (some now.state)) refl same unmoved passed)
    where
      audited :
          (v : Option Transition)
          → attempt_with_retry ctx row id actor detail u d ≡ settled (λ c. c) v
          → apply_and_audit ctx row id actor detail u d
            ≡ settled (audited_db ctx now id actor detail) v
      audited none e = >>=-err _ _ d e
      audited (some s) e = >>=-ok _ _ d e ∙ audit_settled row s same

      go :
          (same_version held : Bool) (v : Option Transition)
          → attempt_with_retry ctx row id actor detail u d ≡ outcome same_version held (λ c. c) v
          → apply_and_audit ctx row id actor detail u d
            ≡ outcome same_version held (audited_db ctx now id actor detail) v
      go true held v e = audited v e
      go false true v e = >>=-err _ _ d e
      go false false v e = audited v e

  -- The row has not been moved on since it was read.
  pub apply_and_audit_unmoved :
      (row : Operation) (t : Transition)
      → row.id ≡ now.id
      → row.state_version ≡ now.state_version
      → row.state ≡ now.state
      → validate_transition id (some row.state) ≡ some t
      → apply_and_audit ctx row id actor detail u d
        ≡ settled (audited_db ctx now id actor detail) (validate_transition id (some now.state))
  apply_and_audit_unmoved row t same version unmoved passed =
      apply_and_audit_lem row t same (λ _. unmoved) passed
      ∙ ap
          (λ b.
            outcome b (ctx.holds ctx.now row) (audited_db ctx now id actor detail)
              (validate_transition id (some now.state)))
          ((==_iff row.state_version now.state_version).1 version)

  -- The row is read in the session that moves it.
  pub apply_and_audit_fresh :
      (t : Transition)
      → validate_transition id (some now.state) ≡ some t
      → apply_and_audit ctx now id actor detail u d
        ≡ settled (audited_db ctx now id actor detail) (some t)
  apply_and_audit_fresh t passes =
      apply_and_audit_unmoved now t refl refl refl passes
      ∙ ap (settled (audited_db ctx now id actor detail)) passes
