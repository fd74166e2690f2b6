-- ===== src/Service/Execute/Contract.antt =====
-- What a successful `execute_operation` of src/n8n_operator/core/service.py has checked, and the
-- row that it leaves.
use n8n_operator.Json.Nfc.{canonicalize_arguments}
use n8n_operator.Service.Execute.Checks.{
  MayActOn, count_burned, started, starts, after_burning, first_burned, expired_is_not_approved,
  burned_db, check_executable-ok, not-false, same_or_not_owner, burned_row,
}
use n8n_operator.StateMachine.Legal.{is_overdue, overdue_expiry_transition_lem}
use n8n_operator.Service.Transition.Selected.{first-moved, audited_db}
use n8n_operator.Service.Transition.Contract.{settled, apply_and_audit_unmoved}
use n8n_operator.Service.History.Updates.{burned-Selected, update_where-IsKeyed}
use n8n_operator.Service.Store.Operations.{
  at_version, no_updates, moved, get_operation, is_unburned, update_where, count_in_state,
}
use n8n_operator.Json.{end, obj}
use n8n_operator.Service.Registry.{find_entry, last_snapshot}
use n8n_operator.StateMachine.{t10, executing, passed, approved}
use n8n_operator.Service.Ports.{PreflightPort}
use n8n_operator.Service.Execute.{
  canonicalize_arguments, verify_live_before_execute, execute_operation, no_updates, t10,
  start_execution, executing, count_in_state, find_entry, fingerprint_arguments, WorkflowEntry,
  approved, check_executable,
}
use n8n_operator.Service.Transition.Read.{get_operation_row-ok, ReadsRow}
use n8n_operator.Service.Outcome.Steps.{same_result, ok-gets, ok->>=, ok-raise_if}
use n8n_operator.Service.Outcome.{ok}
use n8n_operator.Service.Access.{get_owned_operation_row}
use n8n_operator.Service.History.Rows.{first-has_id, has_id, IsKeyed}
use n8n_operator.Service.Store.Rows.{RegistrySnapshot, WorkflowEntry, Operation, Db, Context}
use n8n_operator.StateMachine.{passed}
use n8n_operator.Base.{
  codes, not, ◌&&◌, ◌⊎◌, arith, first, text_eq_iff, subst, text_eq_iff, subst, ◌≡◌, refl, ℕ, Text,
  inl, inr, some, Bool, true, false, sym, ap, ◌∙◌, leb, text_eq, is_some, ◌<◌,
}

-- What must hold of a row, for the database, when its execution starts.
pub record MayExecute (ctx : Context) (preflight : PreflightPort) (d : Db) (row : Operation)
    : Type 0 where
  pub is_unburned : is_some row.handle_burned_at ≡ false
  pub is_approved : row.state ≡ approved
  pub in_time : passed ctx.now row.execution_deadline ≡ false
  pub unaltered :
      fingerprint_arguments ctx.digest (canonicalize_arguments ctx.digest.nfc row.arguments)
      ≡ row.argument_fingerprint
  pub snapshot : RegistrySnapshot
  pub entry : WorkflowEntry
  pub active : last_snapshot d.snapshots ≡ some snapshot
  pub registered : find_entry snapshot.workflows row.workflow_id ≡ some entry
  pub undrifted : entry.definition_hash ≡ row.definition_hash
  pub ready : (preflight entry).ready ≡ true
  pub below_limit : count_in_state row.workflow_id executing d < entry.limits.max_concurrent

belongs :
    (v2 : Bool) (e environment : Text)
    → (not v2 && not (text_eq e environment)) ≡ false
    → (v2 ≡ true) ⊎ (e ≡ environment)
belongs true e environment h = inl refl
belongs false e environment h = inr ((text_eq_iff e environment).0 (not-false h))

module _ (ctx : Context) (d : Db) (k : IsKeyed d.operations) where
  get_owned_operation_row-ok :
      (v2 : Bool) (i p tool : Text) (row : Operation) (c : Db)
      → get_owned_operation_row ctx v2 i p tool d ≡ ok row c
      → ReadsRow ctx i d row c × MayActOn c v2 p tool row
  unfolding get_owned_operation_row
  get_owned_operation_row-ok v2 i p tool row c h =
      let (found, d1, ran, h1) = ok->>= _ _ d h in
      let reads = get_operation_row-ok ctx d k i found d1 ran in
      let (may, same, at) =
        same_or_not_owner d1 (text_eq found.principal_id p) v2 p tool found row c
          (text_eq_iff found.principal_id p).0 h1 in
      subst (λ r. ReadsRow ctx i d r c × MayActOn c v2 p tool r) same
        (subst (λ e. ReadsRow ctx i d found e × MayActOn e v2 p tool found) at (reads, may))

module _ (ctx : Context) (d : Db) (k : IsKeyed d.operations) where
  start_execution-ok :
      (p i : Text) (row : Operation) (entry : WorkflowEntry) (o : Operation) (c : Db)
      → get_operation i d ≡ some row
      → is_some row.handle_burned_at ≡ false
      → row.state ≡ approved
      → start_execution ctx p i row entry d ≡ ok o c
      → (count_in_state row.workflow_id executing d < entry.limits.max_concurrent)
        × (o ≡ moved ctx row.state_version executing no_updates (burned_row ctx row))
        × (get_operation i c ≡ some o)
  unfolding start_execution count_in_state get_operation
  start_execution-ok p i row entry o c present fresh is_approved h =
      let d2 : Db = burned_db ctx i d in
      let same_id = first-has_id i d.operations present in
      let k2 =
        update_where-IsKeyed (is_unburned i) (burned_row ctx) d.operations
          (burned-Selected ctx i d.operations) k in
      let present2 = first_burned ctx i d.operations present fresh in
      let (_, h1) = after_burning ctx i d _ h in
      let (_, h2) = ok-raise_if _ _ _ d2 h1 in
      let (free, h3) = ok-raise_if _ _ _ d2 (ok-gets _ _ d2 h2) in
      let passes = starts row.state is_approved in
      let present3 : get_operation row.id d2 ≡ some (burned_row ctx row) =
        subst (λ j. first (has_id j) d2.operations ≡ some (burned_row ctx row)) (sym same_id)
          present2 in
      let moves =
        apply_and_audit_unmoved ctx d2 k2 (burned_row ctx row) present3 t10 p (obj end) no_updates
          row started refl refl refl passes in
      let ended =
        moves
        ∙ ap
            (settled ctx d2 k2 (burned_row ctx row) present3 t10 p (obj end) no_updates
              (audited_db ctx (burned_row ctx row) t10 p (obj end)))
            passes in
      let (same, at) = same_result (sym ended ∙ h3) in
      (
        limit (rw (count_burned ctx i row.workflow_id executing d.operations) at free),
        sym same,
        subst (λ (e : Db). first (has_id i) e.operations ≡ some o) at
            (rw (← same) (
              subst
                (λ j.
                  first (has_id i) (
                    update_where (at_version j row.state_version)
                      (moved ctx row.state_version executing no_updates) d2.operations)
                  ≡ some (moved ctx row.state_version executing no_updates (burned_row ctx row)))
                (sym same_id)
                (first-moved ctx i row.state_version executing no_updates d2.operations present2
                  refl))),
      )
    where
      limit : {m n : ℕ} → leb m n ≡ false → n < m
      limit e = ground arith

  -- The steps after the read: a row that had expired is not executed.
  finish :
      (preflight : PreflightPort) (v2 : Bool) (environment i p : Text) (row o : Operation)
      (entry : WorkflowEntry) (d1 d2 c : Db)
      → ReadsRow ctx i d row d1
      → MayActOn d1 v2 p (codes "execute_operation") row
      → (v2 ≡ true) ⊎ (row.environment ≡ environment)
      → check_executable ctx row d1 ≡ ok entry d2
      → (preflight entry).ready ≡ true
      → start_execution ctx p i row entry d2 ≡ ok o c
      → (r : Operation) × (get_operation i d ≡ some r)
        × MayActOn d v2 p (codes "execute_operation") r
        × ((v2 ≡ true) ⊎ (r.environment ≡ environment))
        × MayExecute ctx preflight d r
        × (o ≡ moved ctx r.state_version executing no_updates (burned_row ctx r))
        × (get_operation i c ≡ some o)
  finish preflight v2 environment i p row o entry d1 d2 c (inr gone) may here ran is_ready h =
      let (_, _, is_approved, _, _, _) = check_executable-ok ctx d1 row entry d2 ran in
      absurd (expired_is_not_approved (sym gone ∙ is_approved))
  finish preflight v2 environment i p row o entry d1 d2 c (inl (at, present, on_time)) may here ran
        is_ready h =
      let (at2, fresh, is_approved, unaltered, (s, active, registered), undrifted) =
        check_executable-ok ctx d1 row entry d2 ran in
      let (below, same, found) =
        start_execution-ok p i row entry o c present fresh is_approved
          (subst (λ e. start_execution ctx p i row entry e ≡ ok o c) (sym at2 ∙ at) h) in
      let late =
        (overdue_expiry_transition_lem row.state ctx.now row.approval_expires_at
            row.execution_deadline).0.0
          on_time in
      (
        row,
        present,
        subst (λ e. MayActOn e v2 p (codes "execute_operation") row) at may,
        here,
        record {
          is_unburned = fresh;
          is_approved = is_approved;
          in_time =
              subst
                (λ t. is_overdue t ctx.now row.approval_expires_at row.execution_deadline ≡ false)
                is_approved late;
          unaltered = unaltered;
          snapshot = s;
          entry = entry;
          active = subst (λ (e : Db). last_snapshot e.snapshots ≡ some s) at active;
          registered = registered;
          undrifted = undrifted;
          ready = is_ready;
          below_limit = below;
        },
        same,
        found,
      )

  -- A call that executes an operation has the operation's id as its handle. The caller requested the
  -- operation or, in the second version, has an active membership that grants the execution for its
  -- workflow, environment and organization; in the first version it is of the caller's environment.
  -- Before the call the operation was approved, not burned and not past its deadline, its arguments
  -- had the fingerprint that was recorded, its definition was the registered one, the live check was
  -- ready, and fewer operations of the workflow were running than its limit. The result is the
  -- row with a burned handle, in state `executing` and at the next version, and the table holds
  -- it. The ids of the operations are assumed to be distinct.
  pub execute_operation_lem :
      (preflight : PreflightPort) (v2 : Bool) (environment i handle p : Text) (o : Operation)
      (c : Db)
      → execute_operation ctx preflight v2 environment i handle p d ≡ ok o c
      → (handle ≡ i)
        × ((row : Operation) × (get_operation i d ≡ some row)
            × MayActOn d v2 p (codes "execute_operation") row
            × ((v2 ≡ true) ⊎ (row.environment ≡ environment))
            × MayExecute ctx preflight d row
            × (o ≡ moved ctx row.state_version executing no_updates (burned_row ctx row))
            × (get_operation i c ≡ some o))
  unfolding execute_operation verify_live_before_execute
  execute_operation_lem preflight v2 environment i handle p o c h =
      let (is_handle, h1) = ok-raise_if _ _ _ d h in
      let (row, d1, ran, h2) = ok->>= _ _ d h1 in
      let (reads, may) = get_owned_operation_row-ok ctx d k v2 i p _ row d1 ran in
      let (not_elsewhere, h3) = ok-raise_if _ _ _ d1 h2 in
      let (entry, d2, ran2, h4) = ok->>= _ _ d1 h3 in
      let (is_ready, h5) = ok-raise_if _ _ _ d2 h4 in
      (
        (text_eq_iff handle i).0 (not-false is_handle),
        finish preflight v2 environment i p row o entry d1 d2 c reads may
            (belongs v2 row.environment environment not_elsewhere) ran2 (not-false is_ready) h5,
      )
