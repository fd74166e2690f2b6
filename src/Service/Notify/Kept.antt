-- ===== src/Service/Notify/Kept.antt =====
-- A row of `notification_deliveries` that says delivered goes on to say so: `_deliver_with_dedup` of
-- src/n8n_operator/core/service.py for any other events.
use n8n_operator.Service.Ports.{NotificationEvent, NotificationSink}
use n8n_operator.Service.Outcome.{
  Session, Result, ok, err, ◌>>=◌, pure, gets, session_scope, assertion, integrity_error,
}
use n8n_operator.Service.Store.Rows.{Context, Db, NotificationDelivery}
use n8n_operator.Service.Notify.{
  attempted, create_delivery, deliver_existing, deliver_with_dedup, delivery_key, DeliveryReceipt,
  get_by_idempotency_key, is_delivered, new_delivery, outcome_of, record_attempt, try_delivery,
  update_delivery,
}
use n8n_operator.Service.Notify.Rows.{has_key, has_row_id, keeps_key}
use n8n_operator.Base.{
  ◌++◌, arith, inl, inr, Bool-cases, first, any, ◌≡◌, Bool, Text, refl, true, false, List, [], ◌∷◌,
  Option, none, some, if◌then◌else◌, ◌∙◌, ap, text_eq,
}

-- A row of the key says that the delivery was made.
abbrev pub IsDone : Text → Db → Type 0
IsDone key d =
    (n : NotificationDelivery) × (get_by_idempotency_key key d ≡ some n)
    × (is_delivered n.status ≡ true)

-- However the session ends, the row goes on to say so.
abbrev Keeps : {A : Type 0} → Text → Result Db A → Type 0
Keeps key (ok a d) = IsDone key d
Keeps key (err e none) = Unit
Keeps key (err e (some d)) = IsDone key d

attempted-done :
    (ctx : Context) (b : Bool) (n : NotificationDelivery)
    → is_delivered n.status ≡ true
    → is_delivered (attempted ctx b n).status ≡ true
unfolding attempted
attempted-done ctx true n h = refl
attempted-done ctx false n h = h

first-append_row :
    (key : Text) (ns : List NotificationDelivery) (m n : NotificationDelivery)
    → first (has_key key) ns ≡ some n
    → first (has_key key) (ns ++ m ∷ []) ≡ some n
first-append_row key [] m n h = cc
first-append_row key (x ∷ ns) m n h = ground (arith, first-append_row key ns m n)

-- An attempt at any row leaves a delivered row of the key delivered.
first-attempted :
    (ctx : Context) (b : Bool) (key i : Text) (ns : List NotificationDelivery)
    (n : NotificationDelivery)
    → first (has_key key) ns ≡ some n
    → is_delivered n.status ≡ true
    → (m : NotificationDelivery) × (first (has_key key) (update_delivery i (attempted ctx b) ns)
        ≡ some m)
      × (is_delivered m.status ≡ true)
unfolding update_delivery
first-attempted ctx b key i [] n h is_done = cc
first-attempted ctx b key i (x ∷ ns) n h is_done = elim (Bool-cases (has_row_id i x)) [
  | inl tried ↦ elim (Bool-cases (has_key key x)) [
    | inl here ↦
        let same : x ≡ n = ground arith in
        let still : has_key key (attempted ctx b x) ≡ true =
          ap (λ k. text_eq k key) (keeps_key ctx b x) ∙ here in
        (attempted ctx b x, rw (tried, still) refl, attempted-done ctx b x (rw same is_done))
    | inr other ↦
        let still : has_key key (attempted ctx b x) ≡ false =
          ap (λ k. text_eq k key) (keeps_key ctx b x) ∙ other in
        (n, rw (tried, still) (rw other at h), is_done)
  ]
  | inr skipped ↦ elim (Bool-cases (has_key key x)) [
    | inl here ↦ (n, rw (skipped, here) (rw here at h), is_done)
    | inr other ↦
        let (m, found, done) = first-attempted ctx b key i ns n (rw other at h) is_done in
        (m, rw (skipped, other) found, done)
  ]
]

Keeps-bind :
    {A B : Type 0} (key : Text) (d : Db) (m : Session Db A) (f : A → Session Db B)
    → Keeps key (m d)
    → ((a : A) (d' : Db) → IsDone key d' → Keeps key (f a d'))
    → Keeps key ((m >>= f) d)
unfolding ◌>>=◌
Keeps-bind {A} {B} key d m f kept next = go (m d) kept
  where
    go :
        (r : Result Db A)
        → Keeps key r
        → Keeps key (elim r as (λ _. Result Db B) [ ok a d' ↦ f a d' | err e kept ↦ err e kept ])
    go (ok a d') h = next a d' h
    go (err e none) h = tt
    go (err e (some c)) h = h

Keeps-pure : {A : Type 0} (key : Text) (d : Db) (a : A) → IsDone key d → Keeps key (pure a d)
unfolding pure
Keeps-pure key d a h = h

module _ (ctx : Context) (sink : NotificationSink) (event : NotificationEvent) (key : Text) where
  create_delivery-Keeps :
      (d : Db) (k : Text) → IsDone key d → Keeps key (create_delivery ctx k event d)
  unfolding create_delivery get_by_idempotency_key
  create_delivery-Keeps d k (n, found, is_done) = go (any (has_key k) d.deliveries)
    where
      go :
          (taken : Bool)
          → Keeps key (
              if taken
              then err integrity_error none
              else ok
                  (new_delivery ctx k event d)
                  (record d { deliveries = d.deliveries ++ new_delivery ctx k event d ∷ [] }))
      go true = tt
      go false = (n, first-append_row key d.deliveries _ n found, is_done)

  record_attempt-Keeps :
      (d : Db) (i : Text) (b : Bool) → IsDone key d → Keeps key (record_attempt ctx i b d)
  unfolding record_attempt get_by_idempotency_key
  record_attempt-Keeps d i b (n, found, is_done) = go (first (has_row_id i) d.deliveries)
    where
      go :
          (there : Option NotificationDelivery)
          → Keeps key (elim there as (λ _. Result Db NotificationDelivery) [
            | none ↦ err assertion none
            | some m ↦
                ok
                  (attempted ctx b m)
                  (record d { deliveries = update_delivery i (attempted ctx b) d.deliveries })
          ])
      go none = tt
      go (some m) = first-attempted ctx b key i d.deliveries n found is_done

  try_delivery-Keeps :
      (d : Db) (existing : Option NotificationDelivery)
      → IsDone key d
      → Keeps key (try_delivery ctx sink event existing d)
  unfolding try_delivery
  try_delivery-Keeps d existing h = Keeps-bind key d _ _ (row existing) λ n d1 h1.
      Keeps-bind key d1 _ _ (record_attempt-Keeps d1 n.id (outcome_of (sink event)) h1)
        λ updated d2 h2. Keeps-pure key d2 _ h2
    where
      row :
          (existing : Option NotificationDelivery)
          → Keeps key (
              (elim existing as (λ _. Session Db NotificationDelivery) [
                | some n ↦ pure n
                | none ↦ create_delivery ctx (delivery_key event) event
              ])
                d)
      row none = create_delivery-Keeps d (delivery_key event) h
      row (some n) = Keeps-pure key d n h

  deliver_existing-Keeps :
      (d : Db) (n : NotificationDelivery)
      → IsDone key d
      → Keeps key (deliver_existing ctx sink event n d)
  unfolding deliver_existing pure
  deliver_existing-Keeps d n h = elim (Bool-cases (is_delivered n.status)) [
    | inl is_done ↦ rw (deliver_existing, is_done) h
    | inr not_yet ↦ rw (deliver_existing, not_yet) (try_delivery-Keeps d (some n) h)
  ]

  deliver_with_dedup-Keeps :
      (d : Db) → IsDone key d → Keeps key (deliver_with_dedup ctx sink event d)
  unfolding deliver_with_dedup gets ◌>>=◌ deliver_existing
  deliver_with_dedup-Keeps d h = go (get_by_idempotency_key (delivery_key event) d)
    where
      go :
          (o : Option NotificationDelivery)
          → Keeps key (
              (elim o as (λ _. Session Db DeliveryReceipt) [
                | none ↦ try_delivery ctx sink event none
                | some n ↦ deliver_existing ctx sink event n
              ])
                d)
      go none = try_delivery-Keeps d none h
      go (some n) = deliver_existing-Keeps d n h

-- Deliveries of any events, by any sinks and at any times, one after the other.
unfoldable pub after_deliveries : List (Context × NotificationSink × NotificationEvent) → Db → Db
after_deliveries [] d = d
after_deliveries ((ctx, sink, event) ∷ rest) d =
    after_deliveries rest (session_scope (deliver_with_dedup ctx sink event) d)

session_scope-IsDone :
    {A : Type 0} (key : Text) (m : Session Db A) (d : Db)
    → IsDone key d
    → Keeps key (m d)
    → IsDone key (session_scope m d)
unfolding session_scope
session_scope-IsDone {A} key m d before kept = go (m d) kept
  where
    go :
        (r : Result Db A)
        → Keeps key r
        → IsDone key (elim r as (λ _. Db) [
          | ok a d' ↦ d'
          | err e kept ↦ elim kept [ none ↦ d | some c ↦ c ]
        ])
    go (ok a d') h = h
    go (err e none) h = before
    go (err e (some c)) h = h

pub after_deliveries-IsDone :
    (between : List (Context × NotificationSink × NotificationEvent)) (key : Text) (d : Db)
    → IsDone key d
    → IsDone key (after_deliveries between d)
unfolding after_deliveries
after_deliveries-IsDone [] key d h = h
after_deliveries-IsDone ((ctx, sink, event) ∷ rest) key d h = after_deliveries-IsDone rest key _ (
    session_scope-IsDone key (deliver_with_dedup ctx sink event) d h
      (deliver_with_dedup-Keeps ctx sink event key d h))
