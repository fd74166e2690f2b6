-- ===== src/Service/History/Redeliver.antt =====
-- Attempting pending deliveries again leaves every operation as it is.
use n8n_operator.Service.History.Creation.{record_attempt-SafeAt}
use n8n_operator.Service.Notify.{update_delivery}
use n8n_operator.Service.History.Rows.{Follows-refl, IsKeyed}
use n8n_operator.Service.Ports.{NotificationSink}
use n8n_operator.Service.History.Safe.{
  SafeAt-if, SafeAt-bind, SafeAt-pure, Ends, SafeAt-gets, Anything, SafeAt,
}
use n8n_operator.Service.Redeliver.{
  as_failed, list_pending, redeliver, retry_failed_notifications, settle_attempt, mark_failed,
}
use n8n_operator.Service.Store.Rows.{NotificationDelivery, Db, Context}
use n8n_operator.Service.Outcome.{assertion, err, pure, ok}
use n8n_operator.Base.{
  refl, text_eq, any, false, true, leb, if◌then◌else◌, List, Text, Bool, ℕ, none, [], ◌∷◌,
}

module _ (ctx : Context) where
  mark_failed-SafeAt :
      (d : Db) (i : Text) → IsKeyed d.operations → SafeAt ctx d Anything (mark_failed i)
  unfolding mark_failed SafeAt
  mark_failed-SafeAt d i k = go (any (λ n. text_eq n.id i) d.deliveries)
    where
      go :
          (there : Bool)
          → Ends ctx d Anything (
              if there
              then ok tt (record d { deliveries = update_delivery i as_failed d.deliveries })
              else err assertion none)
      go true = (record { keyed = k; rows = Follows-refl d.operations; log = refl }, tt)
      go false = tt

  settle_attempt-SafeAt :
      (d : Db) (was_delivered : Bool) (max_attempts : ℕ) (updated : NotificationDelivery)
      → IsKeyed d.operations
      → SafeAt ctx d Anything (settle_attempt was_delivered max_attempts updated)
  unfolding settle_attempt
  settle_attempt-SafeAt d true max_attempts updated k = SafeAt-pure ctx d Anything _ k tt
  settle_attempt-SafeAt d false max_attempts updated k =
      SafeAt-bind ctx Anything Anything d _ _
        (SafeAt-if ctx d Anything (leb max_attempts updated.attempts) (mark_failed updated.id)
          (pure tt) (λ _. mark_failed-SafeAt d updated.id k)
          (λ _. SafeAt-pure ctx d Anything tt k tt))
        λ _ d1 e1 _. SafeAt-pure ctx d1 Anything _ e1.keyed tt

  redeliver-SafeAt :
      (d : Db) (sink : NotificationSink) (max_attempts : ℕ) (ns : List NotificationDelivery)
      → IsKeyed d.operations
      → SafeAt ctx d Anything (redeliver ctx sink max_attempts ns)
  unfolding redeliver
  redeliver-SafeAt d sink max_attempts [] k = SafeAt-pure ctx d Anything _ k tt
  redeliver-SafeAt d sink max_attempts (n ∷ ns) k =
      SafeAt-bind ctx Anything Anything d _ _ (record_attempt-SafeAt ctx d n.id _ k)
        λ updated d1 e1 _.
          SafeAt-bind ctx Anything Anything d1 _ _
            (settle_attempt-SafeAt d1 _ max_attempts updated e1.keyed)
            λ _ d2 e2 _.
              SafeAt-bind ctx Anything Anything d2 _ _
                (redeliver-SafeAt d2 sink max_attempts ns e2.keyed)
                λ _ d3 e3 _. SafeAt-pure ctx d3 Anything _ e3.keyed tt

  pub retry_failed_notifications-SafeAt :
      (d : Db) (sink : NotificationSink) (max_attempts : ℕ)
      → IsKeyed d.operations
      → SafeAt ctx d Anything (retry_failed_notifications ctx sink max_attempts)
  unfolding retry_failed_notifications
  retry_failed_notifications-SafeAt d sink max_attempts k =
      SafeAt-gets ctx d Anything _ _ (redeliver-SafeAt d sink max_attempts (list_pending d) k)
