-- ===== src/Service/History/Votes.antt =====
-- `approve_operation` and `reject_operation` of src/n8n_operator/core/service.py are safe.
use n8n_operator.Service.Store.Approvals.{record_decision}
use n8n_operator.Service.History.Tables.{
  record_decision-SafeAt, create_approval-SafeAt, get_by_operation_and_decider-SafeAt,
  get_by_operation_id-SafeAt,
}
use n8n_operator.Service.History.Transitions.{apply_and_audit-SafeAt, get_operation_row-SafeAt}
use n8n_operator.Service.History.Held.{Held-Evolves, Held}
use n8n_operator.Service.History.Safe.{
  SafeAt-if, Evolves-trans, SafeAt-pure, SafeAt-or_raise, SafeAt-raise_if_last, SafeAt-option,
  SafeAt-gets, SafeAt-or_raise_last, SafeAt-raise_if, Anything, SafeAt-bind, SafeAt,
}
use n8n_operator.Service.Outcome.{operation_not_found, assertion, pure, ◌>>=◌, Session}
use n8n_operator.Service.History.Rows.{IsKeyed}
use n8n_operator.Service.Approve.{
  approved_count, quorum_snapshot, approve_at_quorum, approve_quorum, reject_quorum, reject_shared,
  approve_shared, get_or_mint_own_approval_row, reject_operation, mint_own_approval_row,
  approve_operation, apply_approval, check_decider, note_decision, cast_vote,
}
use n8n_operator.Service.Registry.{find_entry, resolved_ttl, entry_for_operation}
use n8n_operator.Service.Store.Rows.{PolicySnapshot, DecisionKind, Operation, Db, Context}
use n8n_operator.Base.{ℕ, Bool, Option, some, Text}

module _ (ctx : Context) where
  pub entry_for_operation-SafeAt :
      (d : Db) (s w : Text) → IsKeyed d.operations → SafeAt ctx d Anything (entry_for_operation s w)
  unfolding entry_for_operation
  entry_for_operation-SafeAt d s w k = SafeAt-gets ctx d Anything _ _ (
      SafeAt-or_raise ctx d Anything _ assertion _ λ snapshot _.
        SafeAt-or_raise_last ctx d Anything (find_entry snapshot.workflows w) assertion k λ _ _. tt)

  pub resolved_ttl-SafeAt :
      (d : Db) (s : Option ℕ) → IsKeyed d.operations → SafeAt ctx d Anything (resolved_ttl s)
  unfolding resolved_ttl
  resolved_ttl-SafeAt d s k = SafeAt-or_raise_last ctx d Anything s assertion k λ _ _. tt

  apply_approval-SafeAt :
      (d : Db) (row : Operation) (p : Text)
      → IsKeyed d.operations
      → Held row d
      → SafeAt ctx d Held (apply_approval ctx row p)
  unfolding apply_approval
  apply_approval-SafeAt d row p k held =
      SafeAt-bind ctx Anything Held d _ _
        (entry_for_operation-SafeAt d row.snapshot_id row.workflow_id k)
        λ entry d' e _.
          SafeAt-bind ctx Anything Held d' _ _
            (resolved_ttl-SafeAt d' entry.limits.execution_ttl_seconds e.keyed)
            λ ttl d'' e' _.
              apply_and_audit-SafeAt ctx d'' row _ _ _ _ e'.keyed
                (Held-Evolves ctx row d d'' (Evolves-trans ctx d d' d'' e e') held)

  check_decider-SafeAt :
      (d : Db) (v2 : Bool) (row : Operation) (p : Text)
      → IsKeyed d.operations
      → SafeAt ctx d Anything (check_decider v2 row p)
  unfolding check_decider
  check_decider-SafeAt d v2 row p k =
      SafeAt-gets ctx d Anything _ _ (SafeAt-raise_if_last ctx d _ operation_not_found k)

  note_decision-SafeAt :
      (d : Db) (i : Text) (decision : DecisionKind) (p : Text) (f : Option Text)
      → IsKeyed d.operations
      → SafeAt ctx d Anything (note_decision ctx i decision p f)
  unfolding note_decision
  note_decision-SafeAt d i decision p f k =
      SafeAt-bind ctx Anything Anything d _ _ (get_by_operation_id-SafeAt ctx d i k) λ found d' e _.
        SafeAt-option ctx d' Anything found (pure tt) (λ a. record_decision ctx a.id decision p f)
          (SafeAt-pure ctx d' Anything tt e.keyed tt)
          λ a _. record_decision-SafeAt ctx d' a.id decision p f e.keyed

  -- The decision is noted after the transition, and the moved row is the result.
  note_after :
      (d : Db) (m : Session Db Operation) (i : Text) (decision : DecisionKind) (p : Text)
      (f : Option Text)
      → SafeAt ctx d Held m
      → SafeAt ctx d Held (m >>= λ updated. note_decision ctx i decision p f >>= λ _. pure updated)
  note_after d m i decision p f safe = SafeAt-bind ctx Held Held d m _ safe λ updated d' e held.
      SafeAt-bind ctx Anything Held d' _ _ (note_decision-SafeAt d' i decision p f e.keyed)
        λ _ d'' e' _.
          SafeAt-pure ctx d'' Held updated e'.keyed (Held-Evolves ctx updated d' d'' e' held)

  mint_own_approval_row-SafeAt :
      (d : Db) (row : Operation) (p : Text)
      → IsKeyed d.operations
      → SafeAt ctx d Anything (mint_own_approval_row ctx row p)
  unfolding mint_own_approval_row
  mint_own_approval_row-SafeAt d row p k = SafeAt-gets ctx d Anything _ _ (
      SafeAt-or_raise ctx d Anything row.approval_expires_at assertion _
        λ expires_at _. create_approval-SafeAt ctx d row.id _ _ expires_at (some p) k)

  pub get_or_mint_own_approval_row-SafeAt :
      (d : Db) (row : Operation) (p : Text)
      → IsKeyed d.operations
      → SafeAt ctx d Anything (get_or_mint_own_approval_row ctx row p)
  unfolding get_or_mint_own_approval_row
  get_or_mint_own_approval_row-SafeAt d row p k =
      SafeAt-bind ctx Anything Anything d _ _ (get_by_operation_and_decider-SafeAt ctx d row.id p k)
        λ found d' e _.
          SafeAt-option ctx d' Anything found (mint_own_approval_row ctx row p) pure
            (mint_own_approval_row-SafeAt d' row p e.keyed)
            λ a _. SafeAt-pure ctx d' Anything a e.keyed tt

  cast_vote-SafeAt :
      (d : Db) (snapshot : PolicySnapshot) (row : Operation) (decision : DecisionKind) (p : Text)
      (f : Option Text)
      → IsKeyed d.operations
      → SafeAt ctx d Anything (cast_vote ctx snapshot row decision p f)
  unfolding cast_vote
  cast_vote-SafeAt d snapshot row decision p f k = SafeAt-raise_if ctx d Anything _ _ _ λ _.
      SafeAt-bind ctx Anything Anything d _ _ (get_or_mint_own_approval_row-SafeAt d row p k)
        λ own d' e _.
          SafeAt-raise_if ctx d' Anything _ _ _
            λ _. record_decision-SafeAt ctx d' own.id decision p f e.keyed

  pub approve_operation-SafeAt :
      (d : Db) (v2 : Bool) (i p : Text) (f : Option Text)
      → IsKeyed d.operations
      → SafeAt ctx d Held (approve_operation ctx v2 i p f)
  unfolding approve_operation approve_shared approve_quorum approve_at_quorum
  approve_operation-SafeAt d v2 i p f k =
      SafeAt-bind ctx Held Held d _ _ (get_operation_row-SafeAt ctx d i k) λ row d' e held.
        SafeAt-option ctx d' Held (quorum_snapshot v2 row) (approve_shared ctx v2 row i p f)
          (λ snapshot. approve_quorum ctx snapshot row i p f)
          (SafeAt-bind ctx Anything Held d' _ _ (check_decider-SafeAt d' v2 row p e.keyed)
            λ _ c h _.
              note_after c _ i _ p f
                (apply_approval-SafeAt c row p h.keyed (Held-Evolves ctx row d' c h held)))
          λ snapshot _.
            SafeAt-bind ctx Anything Held d' _ _ (cast_vote-SafeAt d' snapshot row _ p f e.keyed)
              λ _ c h _.
                let still = Held-Evolves ctx row d' c h held in
                SafeAt-gets ctx c Held (approved_count i) _ (
                  SafeAt-if ctx c Held _ (pure row) (apply_approval ctx row p)
                    (λ _. SafeAt-pure ctx c Held row h.keyed still)
                    λ _. apply_approval-SafeAt c row p h.keyed still)

  pub reject_operation-SafeAt :
      (d : Db) (v2 : Bool) (i p : Text) (f : Option Text)
      → IsKeyed d.operations
      → SafeAt ctx d Held (reject_operation ctx v2 i p f)
  unfolding reject_operation reject_shared reject_quorum
  reject_operation-SafeAt d v2 i p f k =
      SafeAt-bind ctx Held Held d _ _ (get_operation_row-SafeAt ctx d i k) λ row d' e held.
        SafeAt-option ctx d' Held (quorum_snapshot v2 row) (reject_shared ctx v2 row i p f)
          (λ snapshot. reject_quorum ctx snapshot row p f)
          (SafeAt-bind ctx Anything Held d' _ _ (check_decider-SafeAt d' v2 row p e.keyed)
            λ _ c h _.
              note_after c _ i _ p f (
                apply_and_audit-SafeAt ctx c row _ _ _ _ h.keyed
                  (Held-Evolves ctx row d' c h held)))
          λ snapshot _.
            SafeAt-bind ctx Anything Held d' _ _ (cast_vote-SafeAt d' snapshot row _ p f e.keyed)
              λ _ c h _.
                apply_and_audit-SafeAt ctx c row _ _ _ _ h.keyed (Held-Evolves ctx row d' c h held)
