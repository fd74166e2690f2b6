-- ===== src/Service/Prepare/Replay.antt =====
-- What `_prepare_or_retry` returns when the key of a call is taken.
use n8n_operator.Service.Outcome.Steps.{>>=-err, >>=-ok}
use n8n_operator.Service.Idempotency.{resolve_idempotency}
use n8n_operator.Service.Outcome.{idempotency_conflict, or_raise, err, raise, ◌>>=◌, gets, ok, pure}
use n8n_operator.StateMachine.{overdue_expiry_transition, Transition, expired}
use n8n_operator.StateMachine.Legal.{overdue_expiry_transition_lem}
use n8n_operator.Json.{obj, end}
use n8n_operator.Service.History.Prepare.{first-IsKeyed}
use n8n_operator.Service.History.Rows.{IsKeyed}
use n8n_operator.Service.Store.Operations.{moved, no_updates, get_operation, find_by_idempotency}
use n8n_operator.Service.Transition.Selected.{moved_db, audited_db}
use n8n_operator.Service.Transition.Contract.{apply_and_audit_fresh}
use n8n_operator.Service.Transition.Read.{on_invalid_transition-ok}
use n8n_operator.Service.Prepare.{
  replayed, request_fingerprint, resolved, resolve_idempotency, answer_existing, find_replay,
  find_existing, request_key, deny, prepare_or_retry, refusal, Request, Db, Ports, Prepared,
}
use n8n_operator.Service.Transition.{apply_lazy_expiry, expire_row}
use n8n_operator.Service.Store.Rows.{Db, Operation, Context}
use n8n_operator.Base.{codes, ap, ◌∙◌, false, text_eq, some, Text, none, true, ◌≡◌, refl}

-- The result that names an operation which another call has created.
abbrev pub replay_of : Operation → Prepared
replay_of o = record { operation = o; idempotent_replay = true; approval_token = none }

-- The operation after the clock has moved it to `expired`, and the database then.
abbrev pub expired_row : Context → Operation → Operation
expired_row ctx o = moved ctx o.state_version expired no_updates o

abbrev pub expired_db : Context → Operation → Transition → Db → Db
expired_db ctx o t d =
    audited_db ctx o t.id (codes "clock") (obj end)
      (moved_db ctx o t.id expired (codes "clock") (obj end) no_updates d)

abbrev pub NotOverdue : Context → Operation → Type 0
NotOverdue ctx o =
    overdue_expiry_transition o.state ctx.now o.approval_expires_at o.execution_deadline ≡ none

pub apply_lazy_expiry-stays :
    (ctx : Context) (o : Operation) (d : Db) → NotOverdue ctx o → apply_lazy_expiry ctx o d ≡ ok o d
unfolding apply_lazy_expiry pure
apply_lazy_expiry-stays ctx o d h = rw (apply_lazy_expiry, h) refl

module _ (ctx : Context) (ports : Ports) (meanwhile : Db → Db) (start : Db) (r : Request) (d : Db)
    (accepted : refusal ctx r d ≡ none) where
  -- After the two checks have passed, the call is the lookup of its key and what follows.
  pub accepted-runs :
      prepare_or_retry ctx ports meanwhile start r d
      ≡ (find_replay ctx r (request_key r) >>= answer_existing ctx ports meanwhile start r) d
  unfolding prepare_or_retry deny gets pure ◌>>=◌
  accepted-runs = rw (prepare_or_retry, accepted) refl

  module _ (key : Text) (o : Operation) (has_key : request_key r ≡ some key)
      (found : find_existing r key d ≡ some o) where
    replayed-stays : NotOverdue ctx o → replayed ctx (some o) d ≡ ok (some o) d
    unfolding replayed pure or_raise ◌>>=◌
    replayed-stays due =
        >>=-ok (apply_lazy_expiry ctx o) (λ x. pure (some x)) d
          (apply_lazy_expiry-stays ctx o d due)

    find_replay-same :
        text_eq o.argument_fingerprint (request_fingerprint ctx r) ≡ true
        → NotOverdue ctx o
        → find_replay ctx r (some key) d ≡ ok (some o) d
    unfolding find_replay resolve_idempotency resolved replayed gets pure ◌>>=◌ or_raise
    find_replay-same same due = rw (find_replay, found, same) (replayed-stays due)

    expires :
        IsKeyed d.operations
        → (t : Transition)
        → overdue_expiry_transition o.state ctx.now o.approval_expires_at o.execution_deadline
          ≡ some t
        → apply_lazy_expiry ctx o d ≡ ok (expired_row ctx o) (expired_db ctx o t d)
    unfolding apply_lazy_expiry expire_row get_operation find_by_idempotency
    expires k t due =
        let (passes, lands) =
          (overdue_expiry_transition_lem o.state ctx.now o.approval_expires_at
              o.execution_deadline).1
            t due in
        let present = first-IsKeyed _ d.operations o k found in
        let moves =
          apply_and_audit_fresh ctx d k o present t.id (codes "clock") (obj end) no_updates t
            passes in
        let lands_there =
          ap
            (λ s. ok (moved ctx o.state_version s no_updates o) (
              audited_db ctx o t.id (codes "clock") (obj end)
                (moved_db ctx o t.id s (codes "clock") (obj end) no_updates d)))
            lands in
        rw (apply_lazy_expiry, due) (on_invalid_transition-ok _ _ d moves ∙ lands_there)

    find_replay-overdue :
        IsKeyed d.operations
        → text_eq o.argument_fingerprint (request_fingerprint ctx r) ≡ true
        → (t : Transition)
        → overdue_expiry_transition o.state ctx.now o.approval_expires_at o.execution_deadline
          ≡ some t
        → find_replay ctx r (some key) d ≡ ok (some (expired_row ctx o)) (expired_db ctx o t d)
    unfolding find_replay resolve_idempotency resolved replayed gets pure ◌>>=◌ or_raise
    find_replay-overdue k same t due =
        rw (find_replay, found, same)
          (>>=-ok (apply_lazy_expiry ctx o) (λ x. pure (some x)) d (expires k t due))

    find_replay-other :
        text_eq o.argument_fingerprint (request_fingerprint ctx r) ≡ false
        → find_replay ctx r (some key) d ≡ err idempotency_conflict none
    unfolding find_replay resolve_idempotency gets raise ◌>>=◌
    find_replay-other other = rw (find_replay, found, other) refl

    -- Let the ids of the operations be distinct. A call that the two checks accept, with a key that an
    -- operation of the same requester, environment and workflow has, for arguments of the same
    -- fingerprint, returns that operation as a replay and creates none. If the operation is not overdue,
    -- nothing is changed; if it is, it is moved to `expired`, at the next version, with one event and
    -- one audit entry of the clock, and returned so.
    pub prepare_or_retry_replay :
        IsKeyed d.operations
        → text_eq o.argument_fingerprint (request_fingerprint ctx r) ≡ true
        → (NotOverdue ctx o → prepare_or_retry ctx ports meanwhile start r d ≡ ok (replay_of o) d)
          × ((t : Transition)
              → overdue_expiry_transition o.state ctx.now o.approval_expires_at o.execution_deadline
                ≡ some t
              → prepare_or_retry ctx ports meanwhile start r d
                ≡ ok (replay_of (expired_row ctx o)) (expired_db ctx o t d))
    unfolding answer_existing pure
    prepare_or_retry_replay k same = (
      λ due. replays o d (find_replay-same same due),
      λ t due.
          replays (expired_row ctx o) (expired_db ctx o t d) (find_replay-overdue k same t due),
    )
      where
        replays :
            (x : Operation) (c : Db)
            → find_replay ctx r (some key) d ≡ ok (some x) c
            → prepare_or_retry ctx ports meanwhile start r d ≡ ok (replay_of x) c
        replays x c h =
            accepted-runs
            ∙ >>=-ok (find_replay ctx r (request_key r))
                (answer_existing ctx ports meanwhile start r) d
                (ap (λ y. find_replay ctx r y d) has_key ∙ h)

    -- A call that the two checks accept, with a key that an operation of the same requester, environment
    -- and workflow has, but with arguments of another fingerprint, is refused as a conflict, and nothing
    -- is committed.
    pub prepare_or_retry_conflict :
        text_eq o.argument_fingerprint (request_fingerprint ctx r) ≡ false
        → prepare_or_retry ctx ports meanwhile start r d ≡ err idempotency_conflict none
    prepare_or_retry_conflict other =
        accepted-runs
        ∙ >>=-err (find_replay ctx r (request_key r)) (answer_existing ctx ports meanwhile start r)
            d (ap (λ x. find_replay ctx r x d) has_key ∙ find_replay-other other)
