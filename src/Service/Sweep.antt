-- ===== src/Service/Sweep.antt =====
-- The sweeps over all operations: `expire_overdue_operations` and `check_and_deliver_alerts` of
-- src/n8n_operator/core/service.py.
use n8n_operator.Service.Ports.{NotificationEvent, NotificationSink}
use n8n_operator.Service.Notify.{deliver_with_dedup, DeliveryReceipt}
use n8n_operator.Service.Transition.{apply_lazy_expiry}
use n8n_operator.Service.Outcome.{gets, ◌>>=◌, pure, Session}
use n8n_operator.Service.Store.Rows.{approved, Operation, Db, Context}
use n8n_operator.Base.{
  ◌++◌, codes, not, zero, ◌-◌, leb, suc, Text, [], ◌+◌, none, ◌||◌, ◌&&◌, ltb, ◌∷◌, some, false,
  keep, Bool, Option, if◌then◌else◌, List, ℕ,
}
use n8n_operator.StateMachine.{unknown, executing, approved, pending_approval, State, state_eq}

abbrev overdue_by : ℕ → Option ℕ → Bool
overdue_by now none = false
overdue_by now (some deadline) = ltb deadline now

-- `list_overdue`
unfoldable pub list_overdue : ℕ → Db → List Operation
list_overdue now db =
    keep
      (λ o.
        state_eq o.state pending_approval && overdue_by now o.approval_expires_at
        || state_eq o.state approved && overdue_by now o.execution_deadline)
      db.operations

abbrev changed : State → State → ℕ
changed before now = if state_eq now before then 0 else 1

unfoldable pub expire_rows : Context → List Operation → Session Db ℕ
expire_rows ctx [] = pure 0
expire_rows ctx (row ∷ rows) = apply_lazy_expiry ctx row >>= λ o.
    expire_rows ctx rows >>= λ rest. pure (changed row.state o.state + rest)

-- `expire_overdue_operations`
unfoldable pub expire_overdue_operations : Context → Session Db ℕ
unfolding expire_rows list_overdue
expire_overdue_operations ctx = do
  candidates ← gets (list_overdue ctx.now)
  expire_rows ctx candidates

-- `ORDER BY`: rows of the same key stay in their order.
unfoldable pub insert_by : (Operation → ℕ) → Operation → List Operation → List Operation
insert_by key o [] = o ∷ []
insert_by key o (p ∷ ps) =
    let later = insert_by key o ps in if leb (key o) (key p) then o ∷ p ∷ ps else p ∷ later

unfoldable pub order_by : (Operation → ℕ) → List Operation → List Operation
unfolding insert_by
order_by key [] = []
order_by key (o ∷ os) = insert_by key o (order_by key os)

unfoldable pub limited : ℕ → List Operation → List Operation
limited zero os = []
limited (suc n) [] = []
limited (suc n) (o ∷ os) = o ∷ limited n os

-- `stuck_executing`, 500 rows at most
unfoldable pub stuck_executing : ℕ → Db → List Operation
unfolding order_by limited
stuck_executing older_than db = limited 500 (
    order_by (λ o. o.updated_at)
      (keep (λ o. state_eq o.state executing && ltb o.updated_at older_than) db.operations))

-- `list_unknown`, 500 rows at most
unfoldable pub list_unknown : Db → List Operation
unfolding order_by limited
list_unknown db =
    limited 500 (order_by (λ o. o.updated_at) (keep (λ o. state_eq o.state unknown) db.operations))

abbrev pub alert_event : Context → Text → Operation → NotificationEvent
alert_event ctx event_type row = record {
  event_type = event_type;
  subject_type = codes "operation";
  subject_id = row.id;
  principal_id = none;
  occurred_at = ctx.now;
  fetch_reference = codes "n8n-operator operations show " ++ row.id;
}

-- One for a delivery that was made now, none for one that had been made.
abbrev pub counted : DeliveryReceipt → ℕ
counted receipt = if receipt.delivered && not receipt.deduplicated then 1 else 0

unfoldable pub alert_rows : Context → NotificationSink → Text → List Operation → Session Db ℕ
alert_rows ctx sink event_type [] = pure 0
alert_rows ctx sink event_type (row ∷ rows) =
    deliver_with_dedup ctx sink (alert_event ctx event_type row) >>= λ receipt.
    alert_rows ctx sink event_type rows >>= λ rest. pure (counted receipt + rest)

-- `check_and_deliver_alerts`
unfoldable pub check_and_deliver_alerts : Context → NotificationSink → ℕ → Session Db ℕ
unfolding alert_rows stuck_executing list_unknown
check_and_deliver_alerts ctx sink threshold_seconds = do
  stuck ← gets (stuck_executing (ctx.now - threshold_seconds))
  alerted ← alert_rows ctx sink (codes "operation.stuck") stuck
  lost ← gets list_unknown
  more ← alert_rows ctx sink (codes "operation.unknown") lost
  pure (alerted + more)
