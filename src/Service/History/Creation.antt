-- ===== src/Service/History/Creation.antt =====
-- The creation of a row, the deliveries of notifications, and the reads of environments are safe.
use n8n_operator.StateMachine.Legal.{here}
use n8n_operator.StateMachine.{preparing}
use n8n_operator.Service.Outcome.{◌>>=◌, pure, environment_not_found, workflow_not_found}
use n8n_operator.Service.History.Held.{Held}
use n8n_operator.Service.Ports.{PreflightResult, NotificationEvent, NotificationSink}
use n8n_operator.Service.History.Safe.{
  SafeAt-raise_if, SafeAt-raise, SafeAt-or_raise_last, SafeAt-option, SafeAt-pure, SafeAt-or_raise,
  SafeAt-gets, SafeAt-bind, SafeAt-if, Anything, SafeAt,
}
use n8n_operator.Service.Registry.{require_enabled_entry}
use n8n_operator.Service.Access.{only, apply_environment_v2, apply_environment, resolve_environment}
use n8n_operator.Service.Notify.{
  is_delivered, deliver_existing, get_by_idempotency_key, outcome_of, delivery_key, try_delivery,
  record_attempt, create_delivery, alert_live, alert_on_drift, deliver_with_dedup,
}
use n8n_operator.Service.Store.Operations.{new_operation, violates_unique, create_operation}
use n8n_operator.Service.History.Rows.{
  RowEvolves-refl, Follows-append, Follows-refl, IsKeyed, has_id,
}
use n8n_operator.Service.Store.Rows.{
  NotificationDelivery, Identity, WorkflowEntry, Environment, RegistrySnapshot, Db, Operation,
  Context,
}
use n8n_operator.Base.{
  not, Bool-cases, Option-cases, ◌≡◌, refl, Bool, false, Option, none, some, Text, List, [], ◌∷◌,
  ◌++◌, any, first, text_eq, text_eq_iff, inl, inr, arith,
}

any-append :
    (i : Text) (xs : List Operation) (o : Operation)
    → any (has_id i) xs ≡ false
    → text_eq o.id i ≡ false
    → any (has_id i) (xs ++ o ∷ []) ≡ false
any-append i [] o h e = ground arith
any-append i (x ∷ xs) o h e = ground (arith, any-append i xs o)

append-IsKeyed :
    (xs : List Operation) (o : Operation)
    → IsKeyed xs
    → any (has_id o.id) xs ≡ false
    → IsKeyed (xs ++ o ∷ [])
append-IsKeyed [] o k h = (refl, tt)
append-IsKeyed (x ∷ xs) o (fresh, k) h = (
  any-append x.id xs o fresh (ground (arith, text_eq_iff x.id o.id, text_eq_iff o.id x.id)),
  append-IsKeyed xs o k (ground arith),
)

first-append :
    (i : Text) (xs : List Operation) (o : Operation)
    → any (has_id i) xs ≡ false
    → o.id ≡ i
    → first (has_id i) (xs ++ o ∷ []) ≡ some o
first-append i [] o h e = ground (arith, text_eq_iff o.id i)
first-append i (x ∷ xs) o h e = ground (arith, first-append i xs o)

module _ (ctx : Context) where
  pub create_operation-SafeAt :
      (d : Db) (new : Identity)
      → IsKeyed d.operations
      → SafeAt ctx d Held (create_operation ctx new preparing)
  unfolding create_operation SafeAt violates_unique
  create_operation-SafeAt d new k = elim (Bool-cases (violates_unique new d.operations)) [
    | inl taken ↦ rw (SafeAt, create_operation, taken) tt
    | inr free ↦
        let row = new_operation ctx new preparing in
        let fresh : any (has_id new.id) d.operations ≡ false = ground arith in
        rw (SafeAt, create_operation, free)
          (
            record {
              keyed = append-IsKeyed d.operations row k fresh;
              rows = Follows-append d.operations (row ∷ []) (here, tt);
              log = refl;
            },
            (row, first-append new.id d.operations row fresh refl, RowEvolves-refl row),
          )
  ]

  create_delivery-SafeAt :
      (d : Db) (key : Text) (event : NotificationEvent)
      → IsKeyed d.operations
      → SafeAt ctx d Anything (create_delivery ctx key event)
  unfolding create_delivery SafeAt
  create_delivery-SafeAt d key event k =
      elim (Bool-cases (any (λ n. text_eq n.idempotency_key key) d.deliveries)) [
        | inl taken ↦ rw (SafeAt, create_delivery, taken) tt
        | inr free ↦
            rw (SafeAt, create_delivery, free)
              (record { keyed = k; rows = Follows-refl d.operations; log = refl }, tt)
      ]

  pub record_attempt-SafeAt :
      (d : Db) (i : Text) (b : Bool)
      → IsKeyed d.operations
      → SafeAt ctx d Anything (record_attempt ctx i b)
  unfolding record_attempt SafeAt
  record_attempt-SafeAt d i b k = elim (Option-cases (first (λ n. text_eq n.id i) d.deliveries)) [
    | inl gone ↦ rw (SafeAt, record_attempt, gone) tt
    | inr (n, found) ↦
        rw (SafeAt, record_attempt, found)
          (record { keyed = k; rows = Follows-refl d.operations; log = refl }, tt)
  ]

  try_delivery-SafeAt :
      (d : Db) (sink : NotificationSink) (event : NotificationEvent)
      (existing : Option NotificationDelivery)
      → IsKeyed d.operations
      → SafeAt ctx d Anything (try_delivery ctx sink event existing)
  unfolding try_delivery
  try_delivery-SafeAt d sink event existing k =
      SafeAt-bind ctx Anything Anything d _ _
        (SafeAt-option ctx d Anything existing (create_delivery ctx (delivery_key event) event) pure
          (create_delivery-SafeAt d (delivery_key event) event k)
          λ n _. SafeAt-pure ctx d Anything n k tt)
        λ n d' e _.
          SafeAt-bind ctx Anything Anything d' _ _
            (record_attempt-SafeAt d' n.id (outcome_of (sink event)) e.keyed)
            λ updated d'' e' _. SafeAt-pure ctx d'' Anything _ e'.keyed tt

  deliver_existing-SafeAt :
      (d : Db) (sink : NotificationSink) (event : NotificationEvent) (n : NotificationDelivery)
      → IsKeyed d.operations
      → SafeAt ctx d Anything (deliver_existing ctx sink event n)
  unfolding deliver_existing
  deliver_existing-SafeAt d sink event n k =
      SafeAt-if ctx d Anything (is_delivered n.status) _ (try_delivery ctx sink event (some n))
        (λ _. SafeAt-pure ctx d Anything _ k tt) λ _. try_delivery-SafeAt d sink event (some n) k

  pub deliver_with_dedup-SafeAt :
      (d : Db) (sink : NotificationSink) (event : NotificationEvent)
      → IsKeyed d.operations
      → SafeAt ctx d Anything (deliver_with_dedup ctx sink event)
  unfolding deliver_with_dedup
  deliver_with_dedup-SafeAt d sink event k =
      SafeAt-gets ctx d Anything (get_by_idempotency_key (delivery_key event)) _ (
        SafeAt-option ctx d Anything (get_by_idempotency_key (delivery_key event) d)
          (try_delivery ctx sink event none) (deliver_existing ctx sink event)
          (try_delivery-SafeAt d sink event none k) λ n _. deliver_existing-SafeAt d sink event n k)

  alert_live-SafeAt :
      (d : Db) (sink : NotificationSink) (w : Text) (live : Option Text)
      → IsKeyed d.operations
      → SafeAt ctx d Anything (alert_live ctx sink w live)
  unfolding alert_live
  alert_live-SafeAt d sink w none k = SafeAt-pure ctx d Anything tt k tt
  alert_live-SafeAt d sink w (some live) k =
      SafeAt-bind ctx Anything Anything d _ _ (deliver_with_dedup-SafeAt d sink _ k)
        λ _ d' e _. SafeAt-pure ctx d' Anything tt e.keyed tt

  pub alert_on_drift-SafeAt :
      (d : Db) (sink : Option NotificationSink) (w : Text) (result : PreflightResult)
      → IsKeyed d.operations
      → SafeAt ctx d Anything (alert_on_drift ctx sink w result)
  unfolding alert_on_drift
  alert_on_drift-SafeAt d none w result k = SafeAt-pure ctx d Anything tt k tt
  alert_on_drift-SafeAt d (some sink) w result k = alert_live-SafeAt d sink w _ k

  only-SafeAt :
      (d : Db) (es : List Environment) → IsKeyed d.operations → SafeAt ctx d Anything (only es)
  only-SafeAt d [] k = SafeAt-raise ctx d Anything _
  only-SafeAt d (e ∷ []) k = SafeAt-pure ctx d Anything e k tt
  only-SafeAt d (e ∷ f ∷ es) k = SafeAt-raise ctx d Anything _

  resolve_environment-SafeAt :
      (d : Db) (p : Text) (e : Option Text)
      → IsKeyed d.operations
      → SafeAt ctx d Anything (resolve_environment p e)
  unfolding resolve_environment
  resolve_environment-SafeAt d p (some e) k =
      SafeAt-gets ctx d Anything _ _
        (SafeAt-or_raise_last ctx d Anything _ environment_not_found k λ _ _. tt)
  resolve_environment-SafeAt d p none k = SafeAt-gets ctx d Anything _ _ (only-SafeAt d _ k)

  apply_environment_v2-SafeAt :
      (d : Db) (p : Text) (e : Option Text) (w : Text) (base : WorkflowEntry) (tool : Text)
      (forbid : Bool)
      → IsKeyed d.operations
      → SafeAt ctx d Anything (apply_environment_v2 p e w base tool forbid)
  unfolding apply_environment_v2
  apply_environment_v2-SafeAt d p e w base tool forbid k =
      SafeAt-bind ctx Anything Anything d _ _ (resolve_environment-SafeAt d p e k) λ found d' h _.
        SafeAt-raise_if ctx d' Anything _ _ _ λ _. SafeAt-gets ctx d' Anything _ _ (
          SafeAt-raise_if ctx d' Anything _ _ _
            λ _. SafeAt-gets ctx d' Anything _ _ (SafeAt-pure ctx d' Anything _ h.keyed tt))

  pub apply_environment-SafeAt :
      (d : Db) (v2 : Bool) (p : Text) (e : Option Text) (w : Text) (base : WorkflowEntry)
      (tool : Text) (forbid : Bool)
      → IsKeyed d.operations
      → SafeAt ctx d Anything (apply_environment v2 p e w base tool forbid)
  unfolding apply_environment
  apply_environment-SafeAt d v2 p e w base tool forbid k =
      SafeAt-if ctx d Anything (not v2) (pure (none, base))
        (apply_environment_v2 p e w base tool forbid >>= λ x. pure (some x.0, x.1))
        (λ _. SafeAt-pure ctx d Anything (none, base) k tt)
        λ _.
          SafeAt-bind ctx Anything Anything d _ _
            (apply_environment_v2-SafeAt d p e w base tool forbid k)
            λ found d' h _. SafeAt-pure ctx d' Anything (some found.0, found.1) h.keyed tt

  pub require_enabled_entry-SafeAt :
      (d : Db) (s : RegistrySnapshot) (w : Text)
      → IsKeyed d.operations
      → SafeAt ctx d Anything (require_enabled_entry s w)
  unfolding require_enabled_entry
  require_enabled_entry-SafeAt d s w k =
      SafeAt-or_raise ctx d Anything _ workflow_not_found _
        λ entry _. SafeAt-raise_if ctx d Anything _ _ _ λ _. SafeAt-pure ctx d Anything entry k tt
