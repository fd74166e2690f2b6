-- ===== src/Service/Redeliver.antt =====
-- `retry_failed_notifications` of src/n8n_operator/core/service.py: one more attempt for each delivery
-- that is pending, and none again for one that has had its attempts.
use n8n_operator.Service.Ports.{NotificationSink, NotificationEvent}
use n8n_operator.Service.Notify.{outcome_of, update_delivery, record_attempt}
use n8n_operator.Service.Store.Rows.{NotificationDelivery, DeliveryStatus, Db, Context}
use n8n_operator.Service.Outcome.{assertion, err, ok, pure, gets, Session, ◌>>=◌, ◌>>◌}
use n8n_operator.Base.{
  ◌+◌, ◌&&◌, text_eq, leb, ◌==◌, ◌++◌, false, any, ◌||◌, codes, Text, if◌then◌else◌, true, ltb,
  keep, List, Option, Bool, ℕ, none, some, [], ◌∷◌,
}

abbrev is_pending : DeliveryStatus → Bool
is_pending DeliveryStatus.pending = true
is_pending _ = false

abbrev instant_or_zero : Option ℕ → ℕ
instant_or_zero none = 0
instant_or_zero (some t) = t

abbrev comes_first : NotificationDelivery → NotificationDelivery → Bool
comes_first n m =
    ltb n.attempts m.attempts
    || (n.attempts == m.attempts
        && leb (instant_or_zero n.last_attempted_at) (instant_or_zero m.last_attempted_at))

insert_delivery : NotificationDelivery → List NotificationDelivery → List NotificationDelivery
insert_delivery n [] = n ∷ []
insert_delivery n (m ∷ ms) =
    let later = insert_delivery n ms in if comes_first n m then n ∷ (m ∷ ms) else m ∷ later

unfoldable pub order_deliveries : List NotificationDelivery → List NotificationDelivery
unfolding insert_delivery
order_deliveries [] = []
order_deliveries (n ∷ ns) = insert_delivery n (order_deliveries ns)

-- `NotificationDeliveryRepository.list_pending`; a row without an attempt has no instant.
unfoldable pub list_pending : Db → List NotificationDelivery
unfolding order_deliveries
list_pending db = order_deliveries (keep (λ n. is_pending n.status) db.deliveries)

abbrev pub as_failed : NotificationDelivery → NotificationDelivery
as_failed n = record n { status = DeliveryStatus.failed }

-- `NotificationDeliveryRepository.mark_failed`
unfoldable pub mark_failed : Text → Session Db (Unit {0})
unfolding update_delivery
mark_failed delivery_id db =
    if any (λ n. text_eq n.id delivery_id) db.deliveries
    then ok tt (record db { deliveries = update_delivery delivery_id as_failed db.deliveries })
    else err assertion none

abbrev time_or : ℕ → Option ℕ → ℕ
time_or now none = now
time_or now (some t) = t

abbrev retried_event : Context → NotificationDelivery → NotificationEvent
retried_event ctx n = record {
  event_type = n.event_type;
  subject_type = n.subject_type;
  subject_id = n.subject_id;
  principal_id = n.principal_id;
  occurred_at = time_or ctx.now n.last_attempted_at;
  fetch_reference = codes "n8n-operator operations approval-status " ++ n.subject_id;
}

-- What follows an attempt: a count, the end of the attempts, or nothing.
unfoldable pub settle_attempt : Bool → ℕ → NotificationDelivery → Session Db ℕ
unfolding mark_failed
settle_attempt true max_attempts updated = pure 1
settle_attempt false max_attempts updated = do
  if leb max_attempts updated.attempts then mark_failed updated.id else pure tt
  pure 0

unfoldable pub redeliver : Context → NotificationSink → ℕ → List NotificationDelivery → Session Db ℕ
unfolding record_attempt settle_attempt
redeliver ctx sink max_attempts [] = pure 0
redeliver ctx sink max_attempts (n ∷ ns) = do
  updated ← record_attempt ctx n.id (outcome_of (sink (retried_event ctx n)))
  delivered ← settle_attempt (outcome_of (sink (retried_event ctx n))) max_attempts updated
  rest ← redeliver ctx sink max_attempts ns
  pure (delivered + rest)

unfoldable pub retry_failed_notifications : Context → NotificationSink → ℕ → Session Db ℕ
unfolding redeliver list_pending
retry_failed_notifications ctx sink max_attempts = do
  pending ← gets list_pending
  redeliver ctx sink max_attempts pending
