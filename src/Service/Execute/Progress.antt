-- ===== src/Service/Execute/Progress.antt =====
-- That `execute_operation` of src/n8n_operator/core/service.py goes through where it may.
use n8n_operator.Json.Nfc.{canonicalize_arguments}
use n8n_operator.StateMachine.Legal.{is_overdue, overdue_expiry_transition_lem}
use n8n_operator.Service.Transition.Selected.{audited_db}
use n8n_operator.Service.Transition.Contract.{settled, apply_and_audit_unmoved}
use n8n_operator.Service.History.Updates.{burned-Selected, update_where-IsKeyed}
use n8n_operator.Json.{end, obj}
use n8n_operator.Service.Outcome.Steps.{gets-goes_on, raise_if-goes_on, or_raise-goes_on, >>=-ok}
use n8n_operator.Service.Execute.Checks.{
  count_burned, started, starts, first_burned, burned_row, burned_db,
}
use n8n_operator.Service.Execute.Contract.{MayExecute}
use n8n_operator.Service.Ports.{PreflightPort}
use n8n_operator.StateMachine.{state_eq, t10, executing, approved, State, overdue_expiry_transition}
use n8n_operator.Service.Registry.{last_snapshot, require_active_snapshot}
use n8n_operator.Service.Transition.{apply_lazy_expiry, get_operation_row}
use n8n_operator.Service.Outcome.{operation_not_found, or_raise, pure, gets, ok, Session, ◌>>=◌}
use n8n_operator.Service.Execute.{
  canonicalize_arguments, verify_live_before_execute, execute_operation, t10, no_updates, executing,
  approved, WorkflowEntry, operation_not_found, count_in_state, State, fingerprint_arguments,
  or_raise, pure, gets, start_execution, Session, PreflightPort, require_approved,
  require_active_snapshot, ◌>>=◌, check_executable,
}
use n8n_operator.Service.Access.{get_owned_operation_row}
use n8n_operator.Service.Store.Operations.{
  no_updates, moved, count_in_state, is_unburned, get_operation, burn_handle,
}
use n8n_operator.Service.History.Rows.{first-has_id, has_id, IsKeyed}
use n8n_operator.Service.Store.Rows.{WorkflowEntry, RegistrySnapshot, Operation, Db, Context}
use n8n_operator.Base.{
  text_eq_refl, ◌⊎◌, ◌&&◌, sym, leb, not, ap, ◌<◌, ◌∙◌, inr, text_eq_iff, subst, inl, refl, text_eq,
  arith, Bool-cases, true, count, false, is_some, Bool, ◌≡◌, any, first, List, Text, ℕ, none, some,
  [], ◌∷◌,
}

none_of_id :
    (i : Text) (xs : List Operation) → any (has_id i) xs ≡ false → count (is_unburned i) xs ≡ 0
none_of_id i [] h = refl
none_of_id i (x ∷ xs) h = ground (arith, none_of_id i xs)

one_unburned :
    (i : Text) (xs : List Operation) {o : Operation}
    → IsKeyed xs
    → first (has_id i) xs ≡ some o
    → is_some o.handle_burned_at ≡ false
    → count (is_unburned i) xs ≡ 1
one_unburned i [] k h u = cc
one_unburned i (x ∷ xs) {o} (new, k) h u = elim (Bool-cases (text_eq x.id i)) [
  | inl here_it_is ↦
      let found : x ≡ o = ground arith in
      let fresh : is_some x.handle_burned_at ≡ false = rw found u in
      let others : any (has_id i) xs ≡ false =
        subst (λ j. any (has_id j) xs ≡ false) ((text_eq_iff x.id i).0 here_it_is) new in
      let none_left = none_of_id i xs others in rw (here_it_is, fresh, none_left) refl
  | inr other ↦ let rest = one_unburned i xs {o = o} k (rw other at h) u in rw other rest
]

belongs :
    (v2 : Bool) (e environment : Text)
    → (v2 ≡ true) ⊎ (e ≡ environment)
    → (not v2 && not (text_eq e environment)) ≡ false
belongs v2 e environment (inl new) = ground arith
belongs v2 e environment (inr same) = let h = (text_eq_iff e environment).1 same in ground arith

module _ (ctx : Context) (d : Db) (k : IsKeyed d.operations) where
  burns :
      {A : Type 0} (i : Text) (f : Bool → Session Db A) {row : Operation}
      → get_operation i d ≡ some row
      → is_some row.handle_burned_at ≡ false
      → (burn_handle ctx i >>= f) d ≡ f true (burned_db ctx i d)
  unfolding burn_handle ◌>>=◌ get_operation
  burns i f present fresh = rw (one_unburned i d.operations k present fresh) refl

  stays :
      (row : Operation)
      → overdue_expiry_transition row.state ctx.now row.approval_expires_at row.execution_deadline
        ≡ none
      → apply_lazy_expiry ctx row d ≡ ok row d
  unfolding apply_lazy_expiry pure
  stays row in_time = rw (apply_lazy_expiry, in_time) refl

  reads :
      (i : Text) (row : Operation)
      → get_operation i d ≡ some row
      → overdue_expiry_transition row.state ctx.now row.approval_expires_at row.execution_deadline
        ≡ none
      → get_operation_row ctx i d ≡ ok row d
  unfolding get_operation_row ◌>>=◌ gets
  reads i row present in_time =
      or_raise-goes_on (get_operation i d) operation_not_found (apply_lazy_expiry ctx) d present
      ∙ stays row in_time

  reads_owned :
      (v2 : Bool) (i p tool : Text) (row : Operation)
      → get_operation i d ≡ some row
      → overdue_expiry_transition row.state ctx.now row.approval_expires_at row.execution_deadline
        ≡ none
      → row.principal_id ≡ p
      → get_owned_operation_row ctx v2 i p tool d ≡ ok row d
  unfolding get_owned_operation_row pure
  reads_owned v2 i p tool row present in_time same =
      >>=-ok (get_operation_row ctx i) _ d (reads i row present in_time)
      ∙ rw ((text_eq_iff row.principal_id p).1 same) refl

  active_is :
      (s : RegistrySnapshot)
      → last_snapshot d.snapshots ≡ some s
      → require_active_snapshot d ≡ ok s d
  unfolding require_active_snapshot ◌>>=◌ gets or_raise
  active_is s h = rw h refl

  approved_passes : (s : State) → s ≡ approved → require_approved s d ≡ ok tt d
  unfolding require_approved pure
  approved_passes s h = rw h refl

  checks :
      (preflight : PreflightPort) (row : Operation) (may : MayExecute ctx preflight d row)
      → check_executable ctx row d ≡ ok may.entry d
  unfolding check_executable pure
  checks preflight row may =
      let unaltered =
        (text_eq_iff
            (fingerprint_arguments ctx.digest (canonicalize_arguments ctx.digest.nfc row.arguments))
            row.argument_fingerprint).1
          may.unaltered in
      let undrifted = (text_eq_iff may.entry.definition_hash row.definition_hash).1 may.undrifted in
      raise_if-goes_on _ _ _ d may.is_unburned
      ∙ (>>=-ok (require_approved row.state) _ d (approved_passes row.state may.is_approved)
          ∙ (raise_if-goes_on _ _ _ d (ap not unaltered)
              ∙ (>>=-ok require_active_snapshot _ d (active_is may.snapshot may.active)
                  ∙ (or_raise-goes_on _ _ _ d may.registered
                      ∙ raise_if-goes_on _ _ _ d (ap not undrifted)))))

  starts_execution :
      (p i : Text) (row : Operation) (entry : WorkflowEntry)
      → get_operation i d ≡ some row
      → is_some row.handle_burned_at ≡ false
      → row.state ≡ approved
      → count_in_state row.workflow_id executing d < entry.limits.max_concurrent
      → (c : Db) × (start_execution ctx p i row entry d
          ≡ ok (moved ctx row.state_version executing no_updates (burned_row ctx row)) c)
  unfolding start_execution count_in_state get_operation
  starts_execution p i row entry present fresh is_approved free =
      let d2 : Db = burned_db ctx i d in
      let same_id = first-has_id i d.operations present in
      let k2 =
        update_where-IsKeyed (is_unburned i) (burned_row ctx) d.operations
          (burned-Selected ctx i d.operations) k in
      let present2 = first_burned ctx i d.operations present fresh in
      let passes = starts row.state is_approved in
      let present3 : get_operation row.id d2 ≡ some (burned_row ctx row) =
        subst (λ j. first (has_id j) d2.operations ≡ some (burned_row ctx row)) (sym same_id)
          present2 in
      let moves =
        apply_and_audit_unmoved ctx d2 k2 (burned_row ctx row) present3 t10 p (obj end) no_updates
          row started refl refl refl passes in
      let ended =
        moves
        ∙ ap
            (settled ctx d2 k2 (burned_row ctx row) present3 t10 p (obj end) no_updates
              (audited_db ctx (burned_row ctx row) t10 p (obj end)))
            passes in
      let still_free : count
            (λ o. text_eq o.workflow_id row.workflow_id && state_eq o.state executing) d2.operations
          < entry.limits.max_concurrent =
        rw (count_burned ctx i row.workflow_id executing d.operations) free in
      (
        _,
        burns i _ present fresh
            ∙ (raise_if-goes_on _ _ _ d2 refl
                ∙ (gets-goes_on _ _ d2 ∙ (raise_if-goes_on _ _ _ d2 (below still_free) ∙ ended))),
      )
    where
      below : {m n : ℕ} → n < m → leb m n ≡ false
      below h = ground arith

  -- Let the ids of the operations be distinct and the row of an operation satisfy what an execution asks
  -- for: it is approved, not burned, not past its deadline and unaltered, the registered definition is
  -- its own, the live check is ready, and fewer operations of the workflow run than its limit. Then a
  -- call of its requester with its id as the handle, and in the first version with its environment,
  -- succeeds, and returns the row with a burned handle, in state `executing` and at the next version.
  pub execute_operation_progress :
      (preflight : PreflightPort) (v2 : Bool) (environment i p : Text) (row : Operation)
      → get_operation i d ≡ some row
      → row.principal_id ≡ p
      → (v2 ≡ true) ⊎ (row.environment ≡ environment)
      → MayExecute ctx preflight d row
      → (c : Db) × (execute_operation ctx preflight v2 environment i i p d
          ≡ ok (moved ctx row.state_version executing no_updates (burned_row ctx row)) c)
  unfolding execute_operation verify_live_before_execute
  execute_operation_progress preflight v2 environment i p row present owner here may =
      let in_time =
        (overdue_expiry_transition_lem row.state ctx.now row.approval_expires_at
            row.execution_deadline).0.1
          (subst (λ s. is_overdue s ctx.now row.approval_expires_at row.execution_deadline ≡ false)
            (sym may.is_approved) may.in_time) in
      let runs =
        starts_execution p i row may.entry present may.is_unburned may.is_approved
          may.below_limit in
      (
        runs.0,
        raise_if-goes_on _ _ _ d (ap not (text_eq_refl i))
            ∙ (>>=-ok (get_owned_operation_row ctx v2 i p _) _ d
                  (reads_owned v2 i p _ row present in_time owner)
                ∙ (raise_if-goes_on _ _ _ d (belongs v2 row.environment environment here)
                    ∙ (>>=-ok (check_executable ctx row) _ d (checks preflight row may)
                        ∙ (raise_if-goes_on _ _ _ d (ap not may.ready) ∙ runs.1)))),
      )
