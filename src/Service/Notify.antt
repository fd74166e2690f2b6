-- ===== src/Service/Notify.antt =====
-- Notifications: `NotificationDeliveryRepository`, `_deliver_with_dedup` and `_alert_on_drift` of
-- src/n8n_operator/core/service.py.
pub mod Rows
pub mod Kept
pub mod Dedup
use n8n_operator.Base.{
  ℕ, ◌+◌, Bool, true, false, ◌&&◌, Option, none, some, List, [], ◌∷◌, ◌++◌, first, any, length,
  Text, codes, text_eq, opt_text_eq, if◌then◌else◌,
}
use n8n_operator.Json.{Json, str, obj}
use n8n_operator.Service.Outcome.{
  Session, ok, err, ◌>>=◌, ◌>>◌, pure, gets, assertion, integrity_error,
}
use n8n_operator.Service.Store.Rows.{NotificationDelivery, DeliveryStatus, Db, Context}
use n8n_operator.Service.Ports.{
  NotificationEvent, NotificationSink, PreflightResult, PreflightCheck,
}
use n8n_operator.Service.Validation.{get_field}

-- `get_by_idempotency_key`; the key is unique.
unfoldable pub get_by_idempotency_key : Text → Db → Option NotificationDelivery
get_by_idempotency_key key db = first (λ n. text_eq n.idempotency_key key) db.deliveries

abbrev pub new_delivery : Context → Text → NotificationEvent → Db → NotificationDelivery
new_delivery ctx key event db = record {
  id = ctx.new_ulid (length db.deliveries);
  idempotency_key = key;
  subject_type = event.subject_type;
  subject_id = event.subject_id;
  principal_id = event.principal_id;
  event_type = event.event_type;
  attempts = 0;
  status = DeliveryStatus.pending;
  last_attempted_at = none;
  delivered_at = none;
}

-- `NotificationDeliveryRepository.create`
unfoldable pub create_delivery :
    Context → Text → NotificationEvent → Session Db NotificationDelivery
create_delivery ctx key event db =
    if any (λ n. text_eq n.idempotency_key key) db.deliveries
    then err integrity_error none
    else ok (new_delivery ctx key event db)
        (record db { deliveries = db.deliveries ++ new_delivery ctx key event db ∷ [] })

unfoldable pub attempted : Context → Bool → NotificationDelivery → NotificationDelivery
attempted ctx was_delivered n =
    let counted : NotificationDelivery = record n {
      attempts = n.attempts + 1;
      last_attempted_at = some ctx.now;
    } in
    if was_delivered
    then record counted { status = DeliveryStatus.delivered; delivered_at = some ctx.now }
    else counted

unfoldable pub update_delivery :
    Text
    → (NotificationDelivery → NotificationDelivery)
    → List NotificationDelivery
    → List NotificationDelivery
update_delivery id f [] = []
update_delivery id f (n ∷ rest) =
    let others = update_delivery id f rest in if text_eq n.id id then f n ∷ rest else n ∷ others

-- `record_attempt`
unfoldable pub record_attempt : Context → Text → Bool → Session Db NotificationDelivery
unfolding attempted update_delivery
record_attempt ctx delivery_id was_delivered db =
    elim (first (λ n. text_eq n.id delivery_id) db.deliveries) [
      | none ↦ err assertion none
      | some n ↦ ok (attempted ctx was_delivered n) (record db {
        deliveries = update_delivery delivery_id (attempted ctx was_delivered) db.deliveries;
      })
    ]

abbrev pub is_delivered : DeliveryStatus → Bool
is_delivered DeliveryStatus.delivered = true
is_delivered _ = false

pub record DeliveryReceipt : Type 0 where
  pub idempotency_key : Text
  pub delivered : Bool
  pub attempts : ℕ
  pub status : DeliveryStatus
  pub deduplicated : Bool

abbrev pub or_empty : Option Text → Text
or_empty none = []
or_empty (some t) = t

-- `f"{event.subject_id}:{event.principal_id or ''}:{event.event_type}"`
unfoldable pub delivery_key : NotificationEvent → Text
delivery_key event =
    event.subject_id ++ (b':' ∷ (or_empty event.principal_id ++ (b':' ∷ event.event_type)))

-- What the sink's call counts as; an exception counts as not delivered.
abbrev pub outcome_of : Option Bool → Bool
outcome_of none = false
outcome_of (some was_delivered) = was_delivered

-- A delivery that is not recorded as delivered: the row, then one call of the sink.
unfoldable pub try_delivery :
    Context
    → NotificationSink
    → NotificationEvent
    → Option NotificationDelivery
    → Session Db DeliveryReceipt
try_delivery ctx sink event existing = do
  delivery ← elim existing [
    | some n ↦ pure n
    | none ↦ create_delivery ctx (delivery_key event) event
  ]
  updated ← record_attempt ctx delivery.id (outcome_of (sink event))
  pure (record {
    idempotency_key = delivery_key event;
    delivered = outcome_of (sink event);
    attempts = updated.attempts;
    status = updated.status;
    deduplicated = false;
  })

-- A row that is recorded as delivered is returned as it is.
unfoldable pub deliver_existing :
    Context
    → NotificationSink
    → NotificationEvent
    → NotificationDelivery
    → Session Db DeliveryReceipt
unfolding try_delivery
deliver_existing ctx sink event n =
    if is_delivered n.status
    then pure (record {
      idempotency_key = delivery_key event;
      delivered = true;
      attempts = n.attempts;
      status = DeliveryStatus.delivered;
      deduplicated = true;
    })
    else try_delivery ctx sink event (some n)

-- `_deliver_with_dedup`
unfoldable pub deliver_with_dedup :
    Context → NotificationSink → NotificationEvent → Session Db DeliveryReceipt
unfolding try_delivery deliver_existing
deliver_with_dedup ctx sink event = do
  existing ← gets (get_by_idempotency_key (delivery_key event))
  elim existing [
    | none ↦ try_delivery ctx sink event none
    | some n ↦ deliver_existing ctx sink event n
  ]

-- The first failed `definition_unchanged` check that is a drift.
drift_check : List PreflightCheck → Option PreflightCheck
drift_check checks =
    first
      (λ c.
        text_eq c.check (codes "definition_unchanged")
        && text_eq c.status (codes "fail")
        && opt_text_eq c.code (some (codes "DEFINITION_DRIFT")))
      checks

-- `drift_check.detail.get("live")`, if that is a text that is not empty.
abbrev live_of : Option Json → Option Text
live_of (some (str (c ∷ cs))) = some (c ∷ cs)
live_of _ = none

live_hash : PreflightCheck → Option Text
live_hash c = elim c.detail [ some (obj fs) ↦ live_of (get_field (codes "live") fs) | _ ↦ none ]

abbrev drift_event : Context → Text → Text → NotificationEvent
drift_event ctx workflow_id live = record {
  event_type = codes "drift.detected";
  subject_type = codes "workflow";
  subject_id = workflow_id ++ (b':' ∷ live);
  principal_id = none;
  occurred_at = ctx.now;
  fetch_reference = codes "n8n-operator registry diff-live " ++ workflow_id;
}

pub live_of_check : Option PreflightCheck → Option Text
unfolding live_hash
live_of_check none = none
live_of_check (some c) = live_hash c

unfoldable pub alert_live : Context → NotificationSink → Text → Option Text → Session Db (Unit {0})
alert_live ctx sink workflow_id none = pure tt
alert_live ctx sink workflow_id (some live) =
    deliver_with_dedup ctx sink (drift_event ctx workflow_id live) >> pure tt

-- `_alert_on_drift`, where a sink is configured
unfoldable pub alert_on_drift :
    Context → Option NotificationSink → Text → PreflightResult → Session Db (Unit {0})
unfolding drift_check live_of_check
alert_on_drift ctx none workflow_id result = pure tt
alert_on_drift ctx (some sink) workflow_id result =
    alert_live ctx sink workflow_id (live_of_check (drift_check result.checks))
