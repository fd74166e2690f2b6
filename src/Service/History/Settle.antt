-- ===== src/Service/History/Settle.antt =====
-- What follows the creation of a row is safe: the branches of `_prepare_or_retry` after the
-- insertion, and `prepare_operation`.
use n8n_operator.Service.History.UseCases.{organization_of-SafeAt}
use n8n_operator.Service.Access.{organization_of}
use n8n_operator.Service.History.Creation.{alert_on_drift-SafeAt}
use n8n_operator.Service.Outcome.{pure, assertion}
use n8n_operator.Service.Validation.{ArgumentError}
use n8n_operator.Service.History.Transitions.{record_creation-SafeAt, apply_and_audit-SafeAt}
use n8n_operator.Service.History.Tables.{create_approval-SafeAt}
use n8n_operator.Service.History.Votes.{resolved_ttl-SafeAt}
use n8n_operator.Service.History.Held.{Held-Evolves, Held}
use n8n_operator.Service.Ports.{PreflightResult}
use n8n_operator.Json.{Json}
use n8n_operator.Service.History.Rows.{IsKeyed}
use n8n_operator.Base.{false, true, [], none, ◌∷◌, not, List, some, ℕ, Text, Option}
use n8n_operator.Service.Prepare.{
  approve_or_ask, request_key, checks_detail, refusal, Inserted, settle, create_and_settle,
  route_operation, auto_approve, frozen_policy, policy_for, prepare_or_retry, block_operation,
  mint_shared_token, shared_token, answer_existing, organization_for, require_approval,
  answer_errors, settle_inserted, reject_arguments, Request, Ports,
}
use n8n_operator.Service.Store.Rows.{Operation, Db, Context}
use n8n_operator.Service.History.Prepare.{
  IsSafeRace, HeldPrepared, HeldIfSome, HeldInserted, insert_or_replay-SafeFrom, find_replay-SafeAt,
  deny-SafeAt,
}
use n8n_operator.Service.History.Safe.{
  SafeFrom, SafeFrom-SafeAt, SafeFrom-bind, SafeAt-reads, Evolves, SafeAt-pure, SafeAt-if,
  SafeAt-or_raise, SafeAt-gets, SafeAt-bind, Anything, SafeAt,
}

module _ (ctx : Context) (ports : Ports) (r : Request) where
  auto_approve-SafeAt :
      (d : Db) (row : Operation) (detail : Json)
      → IsKeyed d.operations
      → Held row d
      → SafeAt ctx d HeldPrepared (auto_approve ctx r row detail)
  unfolding auto_approve
  auto_approve-SafeAt d row detail k held =
      SafeAt-bind ctx Anything HeldPrepared d _ _ (resolved_ttl-SafeAt ctx d _ k) λ ttl d1 e1 _.
        SafeAt-bind ctx Held HeldPrepared d1 _ _
          (apply_and_audit-SafeAt ctx d1 row _ _ _ _ e1.keyed (Held-Evolves ctx row d d1 e1 held))
          λ updated d2 e2 h. SafeAt-pure ctx d2 HeldPrepared _ e2.keyed h

  frozen_policy-SafeAt :
      (d : Db) (organization : Option Text)
      → IsKeyed d.operations
      → SafeAt ctx d Anything (frozen_policy r organization)
  unfolding frozen_policy
  frozen_policy-SafeAt d organization k =
      SafeAt-or_raise ctx d Anything organization assertion _ λ o _.
        SafeAt-or_raise ctx d Anything r.resolved_environment_id assertion _
          λ e _. SafeAt-gets ctx d Anything _ _ (SafeAt-pure ctx d Anything _ k tt)

  policy_for-SafeAt :
      (d : Db) (organization : Option Text)
      → IsKeyed d.operations
      → SafeAt ctx d Anything (policy_for r organization)
  unfolding policy_for
  policy_for-SafeAt d organization k =
      SafeAt-if ctx d Anything (not r.enable_v2) (pure none) (frozen_policy r organization)
        (λ _. SafeAt-pure ctx d Anything none k tt) λ _. frozen_policy-SafeAt d organization k

  mint_shared_token-SafeAt :
      (d : Db) (i : Text) (expires : ℕ)
      → IsKeyed d.operations
      → SafeAt ctx d Anything (mint_shared_token ctx r i expires)
  unfolding mint_shared_token
  mint_shared_token-SafeAt d i expires k = SafeAt-gets ctx d Anything _ _ (
      SafeAt-bind ctx Anything Anything d _ _ (create_approval-SafeAt ctx d _ _ _ _ _ k)
        λ _ d1 e1 _. SafeAt-pure ctx d1 Anything _ e1.keyed tt)

  shared_token-SafeAt :
      (d : Db) (i : Text) (expires : ℕ)
      → IsKeyed d.operations
      → SafeAt ctx d Anything (shared_token ctx r i expires)
  unfolding shared_token
  shared_token-SafeAt d i expires k =
      SafeAt-if ctx d Anything r.enable_v2 (pure none) (mint_shared_token ctx r i expires)
        (λ _. SafeAt-pure ctx d Anything none k tt) λ _. mint_shared_token-SafeAt d i expires k

  require_approval-SafeAt :
      (d : Db) (organization : Option Text) (row : Operation) (detail : Json)
      → IsKeyed d.operations
      → Held row d
      → SafeAt ctx d HeldPrepared (require_approval ctx r organization row detail)
  unfolding require_approval
  require_approval-SafeAt d organization row detail k held =
      SafeAt-bind ctx Anything HeldPrepared d _ _ (resolved_ttl-SafeAt ctx d _ k) λ ttl d1 e1 _.
        SafeAt-bind ctx Anything HeldPrepared d1 _ _ (policy_for-SafeAt d1 organization e1.keyed)
          λ policy d2 e2 _.
            SafeAt-bind ctx Held HeldPrepared d2 _ _
              (apply_and_audit-SafeAt ctx d2 row _ _ _ _ e2.keyed
                (Held-Evolves ctx row d1 d2 e2 (Held-Evolves ctx row d d1 e1 held)))
              λ updated d3 e3 h.
                SafeAt-bind ctx Anything HeldPrepared d3 _ _
                  (shared_token-SafeAt d3 row.id _ e3.keyed)
                  λ token d4 e4 _.
                    SafeAt-pure ctx d4 HeldPrepared _ e4.keyed (Held-Evolves ctx updated d3 d4 e4 h)

  block_operation-SafeAt :
      (d : Db) (row : Operation) (result : PreflightResult)
      → IsKeyed d.operations
      → Held row d
      → SafeAt ctx d HeldPrepared (block_operation ctx ports r row result)
  unfolding block_operation
  block_operation-SafeAt d row result k held =
      SafeAt-bind ctx Held HeldPrepared d _ _ (apply_and_audit-SafeAt ctx d row _ _ _ _ k held)
        λ updated d1 e1 h.
          SafeAt-bind ctx Anything HeldPrepared d1 _ _
            (alert_on_drift-SafeAt ctx d1 ports.notification_sink r.workflow_id result e1.keyed)
            λ _ d2 e2 _.
              SafeAt-pure ctx d2 HeldPrepared _ e2.keyed (Held-Evolves ctx updated d1 d2 e2 h)

  route_operation-SafeAt :
      (d : Db) (organization : Option Text) (row : Operation)
      → IsKeyed d.operations
      → Held row d
      → SafeAt ctx d HeldPrepared (route_operation ctx ports r organization row)
  unfolding route_operation
  route_operation-SafeAt d organization row k held =
      let result = ports.preflight r.entry in
      let detail = checks_detail result in
      SafeAt-if ctx d HeldPrepared (not result.ready) (block_operation ctx ports r row result)
        (approve_or_ask ctx r organization row detail)
        (λ _. block_operation-SafeAt d row result k held)
        λ _.
          SafeAt-if ctx d HeldPrepared r.entry.is_unattended (auto_approve ctx r row detail)
            (require_approval ctx r organization row detail)
            (λ _. auto_approve-SafeAt d row detail k held)
            λ _. require_approval-SafeAt d organization row detail k held

  reject_arguments-SafeAt :
      (d : Db) (row : Operation) (errors : List ArgumentError)
      → IsKeyed d.operations
      → Held row d
      → SafeAt ctx d HeldPrepared (reject_arguments ctx row errors)
  unfolding reject_arguments
  reject_arguments-SafeAt d row errors k held =
      SafeAt-bind ctx Held HeldPrepared d _ _ (apply_and_audit-SafeAt ctx d row _ _ _ _ k held)
        λ updated d1 e1 h. SafeAt-pure ctx d1 HeldPrepared _ e1.keyed h

  answer_errors-SafeAt :
      (d : Db) (organization : Option Text) (row : Operation) (errors : List ArgumentError)
      → IsKeyed d.operations
      → Held row d
      → SafeAt ctx d HeldPrepared (answer_errors ctx ports r organization row errors)
  unfolding answer_errors
  answer_errors-SafeAt d organization row [] k held =
      route_operation-SafeAt d organization row k held
  answer_errors-SafeAt d organization row (e ∷ es) k held =
      reject_arguments-SafeAt d row (e ∷ es) k held

  settle_inserted-SafeAt :
      (d : Db) (organization : Option Text) (inserted : Inserted)
      → IsKeyed d.operations
      → HeldInserted inserted d
      → SafeAt ctx d HeldPrepared (settle_inserted ctx ports r organization inserted)
  unfolding settle_inserted settle
  settle_inserted-SafeAt d organization (o, true) k held = SafeAt-pure ctx d HeldPrepared _ k held
  settle_inserted-SafeAt d organization (o, false) k held =
      SafeAt-bind ctx Anything HeldPrepared d _ _ (record_creation-SafeAt ctx d o _ _ k)
        λ _ d1 e1 _.
          answer_errors-SafeAt d1 organization o _ e1.keyed (Held-Evolves ctx o d d1 e1 held)

  organization_for-SafeAt :
      (d : Db) → IsKeyed d.operations → SafeAt ctx d Anything (organization_for r)
  unfolding organization_for
  organization_for-SafeAt d k =
      SafeAt-if ctx d Anything r.enable_v2 (organization_of r.resolved_environment_id) (pure none)
        (λ _. organization_of-SafeAt ctx d r.resolved_environment_id k)
        λ _. SafeAt-pure ctx d Anything none k tt

  create_and_settle-SafeFrom :
      (start d : Db) (meanwhile : Db → Db)
      → IsSafeRace ctx meanwhile
      → IsKeyed start.operations
      → Evolves ctx start d
      → SafeFrom ctx start d HeldPrepared (create_and_settle ctx ports meanwhile start r)
  unfolding create_and_settle
  create_and_settle-SafeFrom start d meanwhile is_safe k reached =
      SafeFrom-bind ctx Anything HeldPrepared start d _ _
        (SafeFrom-SafeAt ctx start d Anything _ reached (organization_for-SafeAt d reached.keyed))
        λ organization d1 e1 _.
          SafeFrom-bind ctx HeldInserted HeldPrepared start d1 _ _
            (insert_or_replay-SafeFrom ctx r start d1 meanwhile organization is_safe k e1)
            λ inserted d2 e2 h.
              SafeFrom-SafeAt ctx start d2 HeldPrepared _ e2
                (settle_inserted-SafeAt d2 organization inserted e2.keyed h)

  answer_existing-SafeFrom :
      (start d : Db) (meanwhile : Db → Db) (existing : Option Operation)
      → IsSafeRace ctx meanwhile
      → IsKeyed start.operations
      → Evolves ctx start d
      → HeldIfSome existing d
      → SafeFrom ctx start d HeldPrepared (answer_existing ctx ports meanwhile start r existing)
  unfolding answer_existing
  answer_existing-SafeFrom start d meanwhile none is_safe k reached h =
      create_and_settle-SafeFrom start d meanwhile is_safe k reached
  answer_existing-SafeFrom start d meanwhile (some o) is_safe k reached h =
      SafeFrom-SafeAt ctx start d HeldPrepared _ reached
        (SafeAt-pure ctx d HeldPrepared _ reached.keyed h)

  pub prepare_or_retry-SafeFrom :
      (start d : Db) (meanwhile : Db → Db)
      → IsSafeRace ctx meanwhile
      → IsKeyed start.operations
      → Evolves ctx start d
      → SafeFrom ctx start d HeldPrepared (prepare_or_retry ctx ports meanwhile start r)
  unfolding prepare_or_retry
  prepare_or_retry-SafeFrom start d meanwhile is_safe k reached =
      SafeFrom-bind ctx Anything HeldPrepared start d _ _
        (SafeFrom-SafeAt ctx start d Anything _ reached
          (SafeAt-reads ctx d (refusal ctx r) reached.keyed))
        λ refused d1 e1 _.
          SafeFrom-bind ctx Anything HeldPrepared start d1 _ _
            (SafeFrom-SafeAt ctx start d1 Anything _ e1 (deny-SafeAt ctx r d1 refused e1.keyed))
            λ _ d2 e2 _.
              SafeFrom-bind ctx HeldIfSome HeldPrepared start d2 _ _
                (SafeFrom-SafeAt ctx start d2 HeldIfSome _ e2
                  (find_replay-SafeAt ctx r d2 (request_key r) e2.keyed))
                λ existing d3 e3 h.
                  answer_existing-SafeFrom start d3 meanwhile existing is_safe k e3 h
