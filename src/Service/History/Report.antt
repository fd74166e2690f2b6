-- ===== src/Service/History/Report.antt =====
-- The recording of an outcome, the sweeps, the routing of approvals and reconciliation are safe.
use n8n_operator.Service.History.Prepare.{any-first}
use n8n_operator.Service.Store.Approvals.{list_for_operation}
use n8n_operator.Service.History.Creation.{deliver_with_dedup-SafeAt}
use n8n_operator.Service.History.UseCases.{organization_of-SafeAt, get_owned_operation_row-SafeAt}
use n8n_operator.Service.History.Votes.{
  entry_for_operation-SafeAt, get_or_mint_own_approval_row-SafeAt,
}
use n8n_operator.Service.History.Transitions.{
  apply_lazy_expiry-SafeAt, write_audit-SafeAt, apply_and_audit-SafeAt, get_operation_row-SafeAt,
}
use n8n_operator.Service.History.Held.{Held-Evolves, Held}
use n8n_operator.Json.{Json}
use n8n_operator.Service.History.Rows.{RowEvolves-refl, has_id, Follows-refl, IsKeyed}
use n8n_operator.Service.Ports.{NotificationSink, ReconciliationPort}
use n8n_operator.Service.Reconcile.{reconcile_operation, check_reconciler}
use n8n_operator.Service.Routing.{
  targets, already_decided, notify_target, request_approval, notify_targets, check_approvers,
}
use n8n_operator.Service.Sweep.{
  list_overdue, expire_overdue_operations, expire_rows, check_and_deliver_alerts, alert_rows,
}
use n8n_operator.Service.Report.{Outcome, create_result, record_execution_outcome}
use n8n_operator.Service.Store.Rows.{Approval, Operation, ExecutionResult, Db, Context}
use n8n_operator.Base.{
  text_eq_iff, arith, text_eq_refl, ◌≡◌, first, keep, refl, inr, [], true, text_in, inl, not,
  text_eq, false, any, ◌∷◌, Bool-cases, All, ℕ, Bool, Text, List, Option, none, some,
}
use n8n_operator.Service.History.Safe.{
  SafeAt-or_raise, SafeAt-raise_if, SafeAt-if, Evolves, SafeAt-raise_if_last, SafeAt-pure,
  SafeAt-bind, SafeAt-gets, Anything, SafeAt,
}
use n8n_operator.Service.Outcome.{pure, approver_not_in_policy, ◌>>=◌}

-- Every row of a table with distinct ids is the row of its id.
All-first :
    (xs ys : List Operation)
    → ((y : Operation) → first (has_id y.id) ys ≡ some y → first (has_id y.id) xs ≡ some y)
    → IsKeyed ys
    → All (λ y. first (has_id y.id) xs ≡ some y) ys
All-first xs [] lift k = tt
All-first xs (y ∷ ys) lift (fresh, k) = (
  lift y (rw (text_eq_refl y.id) refl),
  All-first xs ys
      (λ z found.
        let apart : text_eq z.id y.id ≡ false =
          any-first (has_id y.id) (has_id z.id) ys z fresh found in
        lift z (ground (arith, text_eq_iff y.id z.id, text_eq_iff z.id y.id)))
      k,
)

All-keep :
    (P : Operation → Type 0) (q : Operation → Bool) (xs : List Operation)
    → All P xs
    → All P (keep q xs)
All-keep P q [] a = tt
All-keep P q (x ∷ xs) (p, a) = elim (Bool-cases (q x)) [
  | inl kept ↦ rw kept (p, All-keep P q xs a)
  | inr dropped ↦ rw dropped (All-keep P q xs a)
]

All-Held :
    (d : Db) (rows : List Operation)
    → All (λ row. first (has_id row.id) d.operations ≡ some row) rows
    → All (λ row. Held row d) rows
All-Held d [] a = tt
All-Held d (row ∷ rows) (found, a) = ((row, found, RowEvolves-refl row), All-Held d rows a)

module _ (ctx : Context) where
  create_result-SafeAt :
      (d : Db) (new : ExecutionResult)
      → IsKeyed d.operations
      → SafeAt ctx d Anything (create_result new)
  unfolding create_result SafeAt
  create_result-SafeAt d new k =
      elim (Bool-cases (any (λ r. text_eq r.operation_id new.operation_id) d.results)) [
        | inl taken ↦ rw (SafeAt, create_result, taken) tt
        | inr free ↦
            rw (SafeAt, create_result, free)
              (record { keyed = k; rows = Follows-refl d.operations; log = refl }, tt)
      ]

  pub record_execution_outcome-SafeAt :
      (d : Db) (update : Text → Json → Json) (secrets : List Text) (i : Text) (o : Outcome)
      → IsKeyed d.operations
      → SafeAt ctx d Held (record_execution_outcome ctx update secrets i o)
  unfolding record_execution_outcome
  record_execution_outcome-SafeAt d update secrets i o k =
      SafeAt-bind ctx Held Held d _ _ (get_operation_row-SafeAt ctx d i k) λ row d1 e1 held.
        SafeAt-raise_if ctx d1 Held _ _ _ λ _.
          SafeAt-bind ctx Anything Held d1 _ _
            (entry_for_operation-SafeAt ctx d1 row.snapshot_id row.workflow_id e1.keyed)
            λ entry d2 e2 _.
              SafeAt-bind ctx Anything Held d2 _ _ (SafeAt-pure ctx d2 Anything _ e2.keyed tt)
                λ capped d3 e3 _.
                  SafeAt-bind ctx Anything Held d3 _ _ (create_result-SafeAt d3 _ e3.keyed)
                    λ _ d4 e4 _. apply_and_audit-SafeAt ctx d4 row _ _ _ _ e4.keyed (
                      Held-Evolves ctx row d3 d4 e4
                        (Held-Evolves ctx row d2 d3 e3 (Held-Evolves ctx row d1 d2 e2 held)))

  expire_rows-SafeAt :
      (d : Db) (rows : List Operation)
      → IsKeyed d.operations
      → All (λ row. Held row d) rows
      → SafeAt ctx d Anything (expire_rows ctx rows)
  unfolding expire_rows
  expire_rows-SafeAt d [] k held = SafeAt-pure ctx d Anything 0 k tt
  expire_rows-SafeAt d (row ∷ rows) k (h, held) =
      SafeAt-bind ctx Held Anything d _ _ (apply_lazy_expiry-SafeAt ctx d row k h) λ o d1 e1 _.
        SafeAt-bind ctx Anything Anything d1 _ _
          (expire_rows-SafeAt d1 rows e1.keyed (still_Held rows d d1 e1 held))
          λ rest d2 e2 _. SafeAt-pure ctx d2 Anything _ e2.keyed tt
    where
      still_Held :
          (rows : List Operation) (d d1 : Db)
          → Evolves ctx d d1
          → All (λ row. Held row d) rows
          → All (λ row. Held row d1) rows
      still_Held [] d d1 e held = tt
      still_Held (row ∷ rows) d d1 e (h, held) =
          (Held-Evolves ctx row d d1 e h, still_Held rows d d1 e held)

  pub expire_overdue_operations-SafeAt :
      (d : Db) → IsKeyed d.operations → SafeAt ctx d Anything (expire_overdue_operations ctx)
  unfolding expire_overdue_operations list_overdue
  expire_overdue_operations-SafeAt d k = SafeAt-gets ctx d Anything (list_overdue ctx.now) _ (
      expire_rows-SafeAt d (list_overdue ctx.now d) k (
        All-Held d _ (
          All-keep (λ row. first (has_id row.id) d.operations ≡ some row) _ d.operations
            (All-first d.operations d.operations (λ y found. found) k))))

  alert_rows-SafeAt :
      (d : Db) (sink : NotificationSink) (kind : Text) (rows : List Operation)
      → IsKeyed d.operations
      → SafeAt ctx d Anything (alert_rows ctx sink kind rows)
  unfolding alert_rows
  alert_rows-SafeAt d sink kind [] k = SafeAt-pure ctx d Anything 0 k tt
  alert_rows-SafeAt d sink kind (row ∷ rows) k =
      SafeAt-bind ctx Anything Anything d _ _ (deliver_with_dedup-SafeAt ctx d sink _ k)
        λ receipt d1 e1 _.
          SafeAt-bind ctx Anything Anything d1 _ _ (alert_rows-SafeAt d1 sink kind rows e1.keyed)
            λ rest d2 e2 _. SafeAt-pure ctx d2 Anything _ e2.keyed tt

  pub check_and_deliver_alerts-SafeAt :
      (d : Db) (sink : NotificationSink) (threshold : ℕ)
      → IsKeyed d.operations
      → SafeAt ctx d Anything (check_and_deliver_alerts ctx sink threshold)
  unfolding check_and_deliver_alerts
  check_and_deliver_alerts-SafeAt d sink threshold k = SafeAt-gets ctx d Anything _ _ (
      SafeAt-bind ctx Anything Anything d _ _ (alert_rows-SafeAt d sink _ _ k) λ a d1 e1 _.
        SafeAt-gets ctx d1 Anything _ _ (
          SafeAt-bind ctx Anything Anything d1 _ _ (alert_rows-SafeAt d1 sink _ _ e1.keyed)
            λ b d2 e2 _. SafeAt-pure ctx d2 Anything _ e2.keyed tt))

  notify_target-SafeAt :
      (d : Db) (sink : NotificationSink) (row : Operation) (i target : Text)
      → IsKeyed d.operations
      → SafeAt ctx d Anything (notify_target ctx sink row i target)
  unfolding notify_target
  notify_target-SafeAt d sink row i target k =
      SafeAt-bind ctx Anything Anything d _ _
        (get_or_mint_own_approval_row-SafeAt ctx d row target k)
        λ _ d1 e1 _.
          SafeAt-bind ctx Anything Anything d1 _ _
            (deliver_with_dedup-SafeAt ctx d1 sink _ e1.keyed)
            λ _ d2 e2 _. SafeAt-pure ctx d2 Anything tt e2.keyed tt

  notify_targets-SafeAt :
      (d : Db) (sink : NotificationSink) (row : Operation) (i : Text) (approvals : List Approval)
      (ts : List Text)
      → IsKeyed d.operations
      → SafeAt ctx d Anything (notify_targets ctx sink row i approvals ts)
  unfolding notify_targets
  notify_targets-SafeAt d sink row i approvals [] k = SafeAt-pure ctx d Anything [] k tt
  notify_targets-SafeAt d sink row i approvals (t ∷ ts) k =
      SafeAt-if ctx d Anything (already_decided t approvals)
        (notify_targets ctx sink row i approvals ts)
        (notify_target ctx sink row i t >>= λ _.
          notify_targets ctx sink row i approvals ts >>= λ notified. pure (t ∷ notified))
        (λ _. notify_targets-SafeAt d sink row i approvals ts k)
        λ _.
          SafeAt-bind ctx Anything Anything d _ _ (notify_target-SafeAt d sink row i t k)
            λ _ d1 e1 _.
              SafeAt-bind ctx Anything Anything d1 _ _
                (notify_targets-SafeAt d1 sink row i approvals ts e1.keyed)
                λ notified d2 e2 _. SafeAt-pure ctx d2 Anything (t ∷ notified) e2.keyed tt

  check_approvers-SafeAt :
      (d : Db) (approvers : Option (List Text)) (eligible : List Text)
      → IsKeyed d.operations
      → SafeAt ctx d Anything (check_approvers approvers eligible)
  unfolding check_approvers
  check_approvers-SafeAt d none eligible k = SafeAt-pure ctx d Anything tt k tt
  check_approvers-SafeAt d (some approvers) eligible k =
      SafeAt-raise_if_last ctx d (any (λ p. not (text_in p eligible)) approvers)
        approver_not_in_policy k

  pub request_approval-SafeAt :
      (d : Db) (sink : NotificationSink) (v2 : Bool) (i p : Text) (approvers : Option (List Text))
      (message : Option Text)
      → IsKeyed d.operations
      → SafeAt ctx d Anything (request_approval ctx sink v2 i p approvers message)
  unfolding request_approval
  request_approval-SafeAt d sink v2 i p approvers message k =
      SafeAt-bind ctx Held Anything d _ _ (get_owned_operation_row-SafeAt ctx d v2 i p _ k)
        λ row d1 e1 _. SafeAt-raise_if ctx d1 Anything _ _ _ λ _.
          SafeAt-or_raise ctx d1 Anything row.approval_policy_snapshot _ _ λ snapshot _.
            SafeAt-bind ctx Anything Anything d1 _ _
              (check_approvers-SafeAt d1 approvers snapshot.eligible_approvers e1.keyed)
              λ _ d2 e2 _. SafeAt-gets ctx d2 Anything _ _ (
                SafeAt-bind ctx Anything Anything d2 _ _
                  (notify_targets-SafeAt d2 sink row i (list_for_operation i d2)
                    (targets approvers snapshot.eligible_approvers) e2.keyed)
                  λ notified d3 e3 _.
                    SafeAt-bind ctx Anything Anything d3 _ _
                      (write_audit-SafeAt ctx d3 _ _ _ _ _ _ e3.keyed)
                      λ _ d4 e4 _. SafeAt-pure ctx d4 Anything _ e4.keyed tt)

  check_reconciler-SafeAt :
      (d : Db) (v2 : Bool) (p : Text) (row : Operation)
      → IsKeyed d.operations
      → SafeAt ctx d Anything (check_reconciler v2 p row)
  unfolding check_reconciler
  check_reconciler-SafeAt d false p row k = SafeAt-raise_if_last ctx d _ _ k
  check_reconciler-SafeAt d true p row k =
      SafeAt-bind ctx Anything Anything d _ _ (organization_of-SafeAt ctx d row.environment_id k)
        λ organization d1 e1 _.
          SafeAt-gets ctx d1 Anything _ _ (SafeAt-raise_if_last ctx d1 _ _ e1.keyed)

  pub reconcile_operation-SafeAt :
      (d : Db) (port : ReconciliationPort) (v2 : Bool) (i p execution note : Text)
      → IsKeyed d.operations
      → SafeAt ctx d Anything (reconcile_operation ctx port v2 i p execution note)
  unfolding reconcile_operation
  reconcile_operation-SafeAt d port v2 i p execution note k =
      SafeAt-bind ctx Held Anything d _ _ (get_operation_row-SafeAt ctx d i k) λ row d1 e1 _.
        SafeAt-bind ctx Anything Anything d1 _ _ (check_reconciler-SafeAt d1 v2 p row e1.keyed)
          λ _ d2 e2 _. SafeAt-raise_if ctx d2 Anything _ _ _ λ _.
            SafeAt-bind ctx Anything Anything d2 _ _
              (entry_for_operation-SafeAt ctx d2 row.snapshot_id row.workflow_id e2.keyed)
              λ entry d3 e3 _. SafeAt-or_raise ctx d3 Anything (port execution) _ _ λ found _.
                SafeAt-raise_if ctx d3 Anything _ _ _ λ _.
                  SafeAt-bind ctx Anything Anything d3 _ _
                    (write_audit-SafeAt ctx d3 _ _ _ _ _ _ e3.keyed)
                    λ _ d4 e4 _. SafeAt-pure ctx d4 Anything _ e4.keyed tt
