-- ===== src/Service/History/Retry.antt =====
-- `prepare_operation` and `retry_operation` are safe.
use n8n_operator.Service.Store.Operations.{get_operation}
use n8n_operator.Service.Outcome.{assertion, retry_not_applicable}
use n8n_operator.Service.History.Transitions.{apply_lazy_expiry-SafeAt}
use n8n_operator.Service.History.Creation.{apply_environment-SafeAt, require_enabled_entry-SafeAt}
use n8n_operator.Service.History.Held.{Held}
use n8n_operator.Service.History.UseCases.{
  get_owned_operation_row-SafeAt, require_active_snapshot-SafeAt,
}
use n8n_operator.Service.History.Rows.{IsKeyed}
use n8n_operator.Json.{Json}
use n8n_operator.Base.{zero, none, suc, true, some, Option, ℕ, Text, Bool}
use n8n_operator.Service.Prepare.{Ports, Request, prepare_or_retry}
use n8n_operator.Service.Registry.{require_active_snapshot, require_enabled_entry}
use n8n_operator.Service.Access.{apply_environment}
use n8n_operator.Service.Outcome.{◌>>=◌}
use n8n_operator.Service.Store.Rows.{RegistrySnapshot, WorkflowEntry, Operation, Db, Context}
use n8n_operator.Service.History.Settle.{prepare_or_retry-SafeFrom}
use n8n_operator.Service.History.Prepare.{IsSafeRace, HeldPrepared}
use n8n_operator.Service.History.Safe.{
  SafeFrom, SafeFrom-SafeAt, SafeFrom-bind, SafeAt-SafeFrom, SafeAt-raise_if_last, Evolves,
  Evolves-refl, SafeAt-or_raise, SafeAt-gets, SafeAt-raise, SafeAt-pure, Anything, SafeAt,
}
use n8n_operator.Service.Retry.{retry_parent, prepare_operation, check_chain, retry_operation}

module _ (ctx : Context) (ports : Ports) (meanwhile : Db → Db) (v2 : Bool) (p : Text) where
  -- What `_prepare_or_retry` is called with, of an entry that was resolved in a transaction.
  resolved-SafeFrom :
      (start d : Db) (e : Option Text) (w tool : Text)
      (r : Option Text × WorkflowEntry → RegistrySnapshot → Request)
      → IsSafeRace ctx meanwhile
      → IsKeyed start.operations
      → Evolves ctx start d
      → SafeFrom ctx start d HeldPrepared (
          require_active_snapshot >>= λ snapshot. require_enabled_entry snapshot w >>= λ base.
          apply_environment v2 p e w base tool true >>= λ found.
          prepare_or_retry ctx ports meanwhile start (r found snapshot))
  resolved-SafeFrom start d e w tool r is_safe k reached =
      SafeFrom-bind ctx Anything HeldPrepared start d _ _
        (SafeFrom-SafeAt ctx start d Anything _ reached
          (require_active_snapshot-SafeAt ctx d reached.keyed))
        λ snapshot d1 e1 _.
          SafeFrom-bind ctx Anything HeldPrepared start d1 _ _
            (SafeFrom-SafeAt ctx start d1 Anything _ e1
              (require_enabled_entry-SafeAt ctx d1 snapshot w e1.keyed))
            λ base d2 e2 _.
              SafeFrom-bind ctx Anything HeldPrepared start d2 _ _
                (SafeFrom-SafeAt ctx start d2 Anything _ e2
                  (apply_environment-SafeAt ctx d2 v2 p e w base _ true e2.keyed))
                λ found d3 e3 _.
                  prepare_or_retry-SafeFrom ctx ports (r found snapshot) start d3 meanwhile is_safe
                    k e3

  pub prepare_operation-SafeAt :
      (d : Db) (e : Option Text) (w : Text) (arguments : Json) (limit : ℕ)
      (key reason : Option Text)
      → IsSafeRace ctx meanwhile
      → IsKeyed d.operations
      → SafeAt ctx d HeldPrepared
          (prepare_operation ctx ports meanwhile v2 p e w arguments limit key reason)
  unfolding prepare_operation
  prepare_operation-SafeAt d e w arguments limit key reason is_safe k =
      SafeAt-gets ctx d HeldPrepared (λ db. db) _
        (SafeAt-SafeFrom ctx d HeldPrepared _
          (resolved-SafeFrom d d e w _ _ is_safe k (Evolves-refl ctx d k)))

  check_chain-SafeAt :
      (d : Db) (rounds : ℕ) (ancestor : Option Text)
      → IsKeyed d.operations
      → SafeAt ctx d Anything (check_chain rounds ancestor)
  unfolding check_chain
  check_chain-SafeAt d rounds none k = SafeAt-pure ctx d Anything tt k tt
  check_chain-SafeAt d zero (some i) k = SafeAt-raise ctx d Anything retry_not_applicable
  check_chain-SafeAt d (suc zero) (some i) k = SafeAt-raise ctx d Anything retry_not_applicable
  check_chain-SafeAt d (suc (suc rounds)) (some i) k =
      SafeAt-gets ctx d Anything (get_operation i) _ (
        SafeAt-or_raise ctx d Anything (get_operation i d) assertion _
          λ ancestor _. check_chain-SafeAt d (suc rounds) ancestor.parent_operation_id k)

  retry_parent-SafeFrom :
      (start d : Db) (limit : ℕ) (key reason : Option Text) (parent : Operation)
      → IsSafeRace ctx meanwhile
      → IsKeyed start.operations
      → Evolves ctx start d
      → SafeFrom ctx start d HeldPrepared
          (retry_parent ctx ports meanwhile start v2 p limit key reason parent)
  unfolding retry_parent
  retry_parent-SafeFrom start d limit key reason parent is_safe k reached =
      resolved-SafeFrom start d parent.environment_id parent.workflow_id _ _ is_safe k reached

  pub retry_operation-SafeAt :
      (d : Db) (i : Text) (limit : ℕ) (key reason : Option Text)
      → IsSafeRace ctx meanwhile
      → IsKeyed d.operations
      → SafeAt ctx d HeldPrepared (retry_operation ctx ports meanwhile v2 i p limit key reason)
  unfolding retry_operation
  retry_operation-SafeAt d i limit key reason is_safe k =
      SafeAt-gets ctx d HeldPrepared (λ db. db) _
        (SafeAt-SafeFrom ctx d HeldPrepared _ (
          SafeFrom-bind ctx Held HeldPrepared d d _ _
            (SafeFrom-SafeAt ctx d d Held _ (Evolves-refl ctx d k)
              (get_owned_operation_row-SafeAt ctx d v2 i p _ k))
            λ row d1 e1 h1.
              SafeFrom-bind ctx Held HeldPrepared d d1 _ _
                (SafeFrom-SafeAt ctx d d1 Held _ e1
                  (apply_lazy_expiry-SafeAt ctx d1 row e1.keyed h1))
                λ parent d2 e2 h2.
                  SafeFrom-bind ctx Anything HeldPrepared d d2 _ _
                    (SafeFrom-SafeAt ctx d d2 Anything _ e2
                      (SafeAt-raise_if_last ctx d2 _ _ e2.keyed))
                    λ _ d3 e3 _.
                      SafeFrom-bind ctx Anything HeldPrepared d d3 _ _
                        (SafeFrom-SafeAt ctx d d3 Anything _ e3
                          (check_chain-SafeAt d3 _ _ e3.keyed))
                        λ _ d4 e4 _.
                          retry_parent-SafeFrom d d4 limit key reason parent is_safe k e4))
