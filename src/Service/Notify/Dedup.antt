-- ===== src/Service/Notify/Dedup.antt =====
-- A notification that was delivered is not delivered again: `_deliver_with_dedup` of
-- src/n8n_operator/core/service.py.
use n8n_operator.Service.Outcome.Steps.{ok-gets, same_result, ok->>=, ok-pure, >>=-ok}
use n8n_operator.Service.Ports.{NotificationEvent, NotificationSink}
use n8n_operator.Service.Outcome.{integrity_error, assertion, err, Session, Result, ok, pure, gets}
use n8n_operator.Service.Store.Rows.{Context, DeliveryStatus, Db, NotificationDelivery}
use n8n_operator.Base.{
  if◌then◌else◌, none, ◌∙◌, subst, ap, length, List, Option, ◌++◌, inr, inl, Bool-cases, some,
  first, ◌≡◌, any, ℕ, Bool, Text, refl, true, false, [], ◌∷◌,
}
use n8n_operator.Service.Notify.{
  new_delivery, integrity_error, assertion, err, outcome_of, create_delivery, Session,
  record_attempt, attempted, ok, delivery_key, NotificationEvent, NotificationSink, Context,
  is_delivered, DeliveryStatus, pure, DeliveryReceipt, gets, Db, NotificationDelivery,
  update_delivery, get_by_idempotency_key, deliver_with_dedup, deliver_existing, try_delivery,
}
use n8n_operator.Service.Notify.Kept.{IsDone, after_deliveries, after_deliveries-IsDone}
use n8n_operator.Service.Notify.Rows.{
  has_key, has_row_id, HasDistinctIds, first-update_delivery, keeps_key, is_done_now, first-new_row,
  HasDistinctIds-append,
}

-- The receipt of a delivery that had been made.
abbrev pub known_receipt : Text → ℕ → DeliveryReceipt
known_receipt key attempts = record {
  idempotency_key = key;
  delivered = true;
  attempts = attempts;
  status = DeliveryStatus.delivered;
  deduplicated = true;
}

done-deliver_with_dedup :
    (d : Db) (ctx : Context) (sink : NotificationSink) (event : NotificationEvent)
    → IsDone (delivery_key event) d
    → (n : ℕ) × (deliver_with_dedup ctx sink event d ≡ ok (known_receipt (delivery_key event) n) d)
unfolding deliver_with_dedup gets deliver_existing pure
done-deliver_with_dedup d ctx sink event (n, found, is_done) =
    let look = >>=-ok (gets (get_by_idempotency_key (delivery_key event))) _ d refl in
    let existing =
      ap
        (λ o.
          (elim o as (λ _. Session Db DeliveryReceipt) [
            | none ↦ try_delivery ctx sink event none
            | some n ↦ deliver_existing ctx sink event n
          ])
            d)
        found in
    (n.attempts, look ∙ existing ∙ rw (deliver_existing, is_done) refl)

module _ (ctx : Context) (sink : NotificationSink) (event : NotificationEvent) where
  -- An attempt that the sink confirmed leaves a row that says so.
  record_attempt-done :
      (d c : Db) (key : Text) (n updated : NotificationDelivery)
      → HasDistinctIds d.deliveries
      → get_by_idempotency_key key d ≡ some n
      → record_attempt ctx n.id true d ≡ ok updated c
      → IsDone key c
  unfolding record_attempt get_by_idempotency_key
  record_attempt-done d c key n updated k found ran = go (first (has_row_id n.id) d.deliveries) ran
    where
      go :
          (there : Option NotificationDelivery)
          → (elim there as (λ _. Result Db NotificationDelivery) [
            | none ↦ err assertion none
            | some m ↦
                ok
                  (attempted ctx true m)
                  (record d { deliveries = update_delivery n.id (attempted ctx true) d.deliveries })
          ])
            ≡ ok updated c
          → IsDone key c
      go none h = cc
      go (some m) h = subst (IsDone key) (same_result h).1 (
        attempted ctx true n,
        first-update_delivery (attempted ctx true) (keeps_key ctx true) key d.deliveries n k found,
        is_done_now ctx n,
      )

  created :
      (d d1 : Db) (key : Text) (n : NotificationDelivery)
      → HasDistinctIds d.deliveries
      → any (has_row_id (ctx.new_ulid (length d.deliveries))) d.deliveries ≡ false
      → create_delivery ctx key event d ≡ ok n d1
      → HasDistinctIds d1.deliveries × (get_by_idempotency_key key d1 ≡ some n)
  unfolding create_delivery get_by_idempotency_key
  created d d1 key n k fresh made = go (any (has_key key) d.deliveries) refl made
    where
      go :
          (taken : Bool)
          → any (has_key key) d.deliveries ≡ taken
          → (if taken
              then err integrity_error none
              else ok
                  (new_delivery ctx key event d)
                  (record d { deliveries = d.deliveries ++ new_delivery ctx key event d ∷ [] }))
            ≡ ok n d1
          → HasDistinctIds d1.deliveries × (first (has_key key) d1.deliveries ≡ some n)
      go true e h = cc
      go false e h =
          let (same, stays) = same_result h in
          (
            subst (λ x. HasDistinctIds x.deliveries) stays
                (HasDistinctIds-append d.deliveries (new_delivery ctx key event d) k fresh),
            subst (λ x. first (has_key key) x.deliveries ≡ some (new_delivery ctx key event d))
                  stays (first-new_row key d.deliveries (new_delivery ctx key event d) e refl)
                ∙ ap some same,
          )

  try_delivery-done :
      (d c : Db) (existing : Option NotificationDelivery) (receipt : DeliveryReceipt)
      → HasDistinctIds d.deliveries
      → any (has_row_id (ctx.new_ulid (length d.deliveries))) d.deliveries ≡ false
      → get_by_idempotency_key (delivery_key event) d ≡ existing
      → try_delivery ctx sink event existing d ≡ ok receipt c
      → receipt.delivered ≡ true
      → IsDone (delivery_key event) c
  unfolding try_delivery
  try_delivery-done d c existing receipt k fresh found ran was_delivered =
      let (n, d1, made, ran1) = ok->>= _ _ d ran in
      let (updated, d2, tried, ran2) = ok->>= _ _ d1 ran1 in
      let (same, end) = ok-pure _ d2 ran2 in
      let (k1, found1) = ready existing found made in
      let confirmed : outcome_of (sink event) ≡ true = ap (λ x. x.delivered) same ∙ was_delivered in
      subst (IsDone (delivery_key event)) end (
        record_attempt-done d1 d2 (delivery_key event) n updated k1 found1
          (subst (λ b. record_attempt ctx n.id b d1 ≡ ok updated d2) confirmed tried))
    where
      ready :
          {n : NotificationDelivery} {d1 : Db}
          → (o : Option NotificationDelivery) → get_by_idempotency_key (delivery_key event) d ≡ o
          → (elim o as (λ _. Session Db NotificationDelivery) [
            | some n ↦ pure n
            | none ↦ create_delivery ctx (delivery_key event) event
          ])
              d
            ≡ ok n d1
          → HasDistinctIds d1.deliveries × (get_by_idempotency_key (delivery_key event) d1 ≡ some n)
      ready none free made = created d _ (delivery_key event) _ k fresh made
      ready (some m) found made =
          let (same, stays) = ok-pure m d made in
          (
            subst (λ x. HasDistinctIds x.deliveries) stays k,
            subst (λ x. get_by_idempotency_key (delivery_key event) x ≡ some m) stays found
                ∙ ap some same,
          )

  existing :
      (d c : Db) (n : NotificationDelivery) (receipt : DeliveryReceipt)
      → HasDistinctIds d.deliveries
      → any (has_row_id (ctx.new_ulid (length d.deliveries))) d.deliveries ≡ false
      → get_by_idempotency_key (delivery_key event) d ≡ some n
      → deliver_existing ctx sink event n d ≡ ok receipt c
      → receipt.delivered ≡ true
      → IsDone (delivery_key event) c
  unfolding deliver_existing pure
  existing d c n receipt k fresh found ran was_delivered =
      elim (Bool-cases (is_delivered n.status)) [
        | inl is_done ↦
            let stays = (same_result (rw (deliver_existing, is_done) at ran)).1 in
            subst (IsDone (delivery_key event)) stays (n, found, is_done)
        | inr not_yet ↦
            try_delivery-done d c (some n) receipt k fresh found
              (rw (deliver_existing, not_yet) at ran) was_delivered
      ]

  deliver_with_dedup-done :
      (d c : Db) (receipt : DeliveryReceipt)
      → HasDistinctIds d.deliveries
      → any (has_row_id (ctx.new_ulid (length d.deliveries))) d.deliveries ≡ false
      → deliver_with_dedup ctx sink event d ≡ ok receipt c
      → receipt.delivered ≡ true
      → IsDone (delivery_key event) c
  unfolding deliver_with_dedup deliver_existing
  deliver_with_dedup-done d c receipt k fresh ran was_delivered =
      go (get_by_idempotency_key (delivery_key event) d) refl
        (ok-gets (get_by_idempotency_key (delivery_key event)) _ d ran)
    where
      go :
          (o : Option NotificationDelivery)
          → get_by_idempotency_key (delivery_key event) d ≡ o
          → (elim o as (λ _. Session Db DeliveryReceipt) [
            | none ↦ try_delivery ctx sink event none
            | some n ↦ deliver_existing ctx sink event n
          ])
              d
            ≡ ok receipt c
          → IsDone (delivery_key event) c
      go none e h = try_delivery-done d c none receipt k fresh e h was_delivered
      go (some n) e h = existing d c n receipt k fresh e h was_delivered

  -- When an event has been delivered, then after any further deliveries of any events, by any sinks and at
  -- any times, a call for an event with the same key finds that out: its receipt is the one of a known
  -- delivery, whatever its own sink would say, and the call changes nothing. The ids of the deliveries
  -- before are assumed to be distinct, and the new id to be new.
  pub deliver_with_dedup_once :
      (d c : Db) (receipt : DeliveryReceipt)
      → HasDistinctIds d.deliveries
      → any (has_row_id (ctx.new_ulid (length d.deliveries))) d.deliveries ≡ false
      → deliver_with_dedup ctx sink event d ≡ ok receipt c
      → receipt.delivered ≡ true
      → (between : List (Context × NotificationSink × NotificationEvent)) (later : Context)
        (other_sink : NotificationSink) (again : NotificationEvent)
      → delivery_key event ≡ delivery_key again
      → (n : ℕ) × (deliver_with_dedup later other_sink again (after_deliveries between c)
          ≡ ok (known_receipt (delivery_key again) n) (after_deliveries between c))
  deliver_with_dedup_once d c receipt k fresh ran was_delivered between later other_sink again
        same =
      done-deliver_with_dedup (after_deliveries between c) later other_sink again (
        subst (λ key. IsDone key (after_deliveries between c)) same
          (after_deliveries-IsDone between (delivery_key event) c
            (deliver_with_dedup-done d c receipt k fresh ran was_delivered)))
