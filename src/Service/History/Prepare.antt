-- ===== src/Service/History/Prepare.antt =====
-- `_prepare_or_retry` is safe, whatever other sessions commit while it runs, if they are safe.
use n8n_operator.Service.History.Transitions.{apply_lazy_expiry-SafeAt, write_audit-SafeAt}
use n8n_operator.Json.{Fields}
use n8n_operator.Service.Store.Operations.{in_namespace, find_by_idempotency}
use n8n_operator.Service.Outcome.{
  err, ok, idempotency_conflict, raise, pure, assertion, integrity_error, Result, OperatorError,
  Session,
}
use n8n_operator.Service.History.Safe.{
  SafeFrom, SafeFrom-SafeAt, Evolves-trans, SafeAt-commit_and_raise, SafeAt-or_raise, SafeAt-if,
  Ends, SafeAt-bind, SafeAt-raise, SafeAt-pure, SafeAt-gets, Anything, Evolves, SafeAt,
}
use n8n_operator.Service.History.Held.{Held-Evolves, Held}
use n8n_operator.Service.History.Rows.{RowEvolves-refl, has_id, IsKeyed}
use n8n_operator.Service.Idempotency.{replay, new, IdempotencyResolution, resolve_idempotency}
use n8n_operator.Service.Prepare.{
  find_existing, request_key, mint_operation_handle, replayed, lost_race, resolved,
  insert_or_replay, deny, find_replay, insert, on_integrity_error, Request, Prepared, Inserted,
}
use n8n_operator.Base.{
  refl, [], ◌∷◌, none, some, true, false, inr, text_eq_iff, arith, inl, subst, Bool-cases, text_eq,
  ◌≡◌, first, any, List, Text, Bool, Option,
}
use n8n_operator.Service.Store.Rows.{Db, Context, Operation}
use n8n_operator.Service.History.Creation.{create_operation-SafeAt}

pub any-first :
    (p q : Operation → Bool) (xs : List Operation) (o : Operation)
    → any p xs ≡ false
    → first q xs ≡ some o
    → p o ≡ false
any-first p q [] o none_has found = cc
any-first p q (x ∷ xs) o none_has found = elim (Bool-cases (q x)) [
  | inl here_it_is ↦ let same : x ≡ o = ground arith in rw (← same) (ground arith)
  | inr other ↦ any-first p q xs o (ground arith) (ground arith)
]

-- A row that is found by any test is the row of its id.
pub first-IsKeyed :
    (q : Operation → Bool) (xs : List Operation) (o : Operation)
    → IsKeyed xs
    → first q xs ≡ some o
    → first (has_id o.id) xs ≡ some o
first-IsKeyed q [] o k found = cc
first-IsKeyed q (x ∷ xs) o (fresh, k) found = elim (Bool-cases (q x)) [
  | inl here_it_is ↦ let same : x ≡ o = ground arith in ground (arith, text_eq_iff x.id o.id)
  | inr other ↦
      let later : first q xs ≡ some o = ground arith in
      let new_id : text_eq o.id x.id ≡ false = any-first (has_id x.id) q xs o fresh later in
      let rest = first-IsKeyed q xs o k later in
      ground (arith, text_eq_iff x.id o.id, text_eq_iff o.id x.id)
]

pub Held-first :
    (q : Operation → Bool) (d : Db) (o : Operation)
    → IsKeyed d.operations
    → first q d.operations ≡ some o
    → Held o d
Held-first q d o k found = (o, first-IsKeyed q d.operations o k found, RowEvolves-refl o)

-- What the other sessions do is safe.
abbrev pub IsSafeRace : Context → (Db → Db) → Type 0
IsSafeRace ctx meanwhile = (d : Db) → IsKeyed d.operations → Evolves ctx d (meanwhile d)

abbrev pub HeldIfSome : Option Operation → Db → Type 0
HeldIfSome none d = Unit
HeldIfSome (some o) d = Held o d

abbrev pub HeldInserted : Inserted → Db → Type 0
HeldInserted i d = Held i.0 d

-- The operation of the result is held.
abbrev pub HeldPrepared : Prepared → Db → Type 0
HeldPrepared p d = Held p.operation d

module _ (ctx : Context) where
  on_integrity_error-SafeFrom :
      {A : Type 0} (start d rolled_back : Db) (Q : A → Db → Type 0) (m handler : Session Db A)
      → SafeFrom ctx start d Q m
      → SafeFrom ctx start rolled_back Q handler
      → SafeFrom ctx start d Q (on_integrity_error rolled_back m handler)
  unfolding on_integrity_error SafeFrom
  on_integrity_error-SafeFrom {A} start d rolled_back Q m handler p q = go (m d) p
    where
      go :
          (r : Result Db A)
          → Ends ctx start Q r
          → Ends ctx start Q (elim r as (λ _. Result Db A) [
            | ok a d' ↦ ok a d'
            | err integrity_error kept ↦ handler rolled_back
            | err e kept ↦ err e kept
          ])
      go (ok a d') h = h
      go (err integrity_error kept) h = q
      go (err e kept) h = h

  resolve_idempotency-SafeAt :
      (d : Db) (existing : Option Text) (h : Text)
      → IsKeyed d.operations
      → SafeAt ctx d Anything (resolve_idempotency existing h)
  unfolding resolve_idempotency
  resolve_idempotency-SafeAt d none h k = SafeAt-pure ctx d Anything new k tt
  resolve_idempotency-SafeAt d (some f) h k =
      SafeAt-if ctx d Anything (text_eq f h) (pure replay) (raise idempotency_conflict)
        (λ _. SafeAt-pure ctx d Anything replay k tt)
        λ _. SafeAt-raise ctx d Anything idempotency_conflict

  module _ (r : Request) where
    pub deny-SafeAt :
        (d : Db) (refused : Option (OperatorError × Fields))
        → IsKeyed d.operations
        → SafeAt ctx d Anything (deny ctx r refused)
    unfolding deny
    deny-SafeAt d none k = SafeAt-pure ctx d Anything tt k tt
    deny-SafeAt d (some (e, details)) k =
        SafeAt-bind ctx Anything Anything d _ _ (write_audit-SafeAt ctx d _ _ _ _ _ _ k)
          λ _ d' h _. SafeAt-commit_and_raise ctx d' Anything e h.keyed

    resolved-SafeAt :
        (d : Db) (existing : Option Operation) (resolution : IdempotencyResolution)
        → IsKeyed d.operations
        → HeldIfSome existing d
        → SafeAt ctx d HeldIfSome (resolved ctx existing resolution)
    unfolding resolved replayed
    resolved-SafeAt d existing new k held = SafeAt-pure ctx d HeldIfSome none k tt
    resolved-SafeAt d none replay k held =
        SafeAt-or_raise ctx d HeldIfSome none assertion _ λ o e. cc
    resolved-SafeAt d (some o) replay k held =
        SafeAt-or_raise ctx d HeldIfSome (some o) assertion _ λ row same.
          SafeAt-bind ctx Held HeldIfSome d _ _
            (apply_lazy_expiry-SafeAt ctx d row k (subst (λ x. HeldIfSome x d) same held))
            λ refreshed d' e h. SafeAt-pure ctx d' HeldIfSome (some refreshed) e.keyed h

    found-HeldIfSome :
        (d : Db) (q : Operation → Bool) (found : Option Operation)
        → IsKeyed d.operations
        → first q d.operations ≡ found
        → HeldIfSome found d
    found-HeldIfSome d q none k same = tt
    found-HeldIfSome d q (some o) k same = Held-first q d o k same

    pub find_replay-SafeAt :
        (d : Db) (key : Option Text)
        → IsKeyed d.operations
        → SafeAt ctx d HeldIfSome (find_replay ctx r key)
    unfolding find_replay find_by_idempotency
    find_replay-SafeAt d none k = SafeAt-pure ctx d HeldIfSome none k tt
    find_replay-SafeAt d (some key) k = SafeAt-gets ctx d HeldIfSome (find_existing r key) _ (
        SafeAt-bind ctx Anything HeldIfSome d _ _ (resolve_idempotency-SafeAt d _ _ k)
          λ resolution d' e _. resolved-SafeAt d' _ resolution e.keyed (
            held d' e (find_existing r key d) (
              found-HeldIfSome d (in_namespace r.principal_id r.environment_value r.workflow_id key)
                (find_existing r key d) k refl)))
      where
        held :
            (d' : Db) → Evolves ctx d d' → (o : Option Operation) → HeldIfSome o d → HeldIfSome o d'
        held d' e none h = tt
        held d' e (some o) h = Held-Evolves ctx o d d' e h

    insert-SafeAt :
        (d : Db) (organization : Option Text)
        → IsKeyed d.operations
        → SafeAt ctx d HeldInserted (insert ctx r organization)
    unfolding insert
    insert-SafeAt d organization k = SafeAt-gets ctx d HeldInserted (mint_operation_handle ctx) _ (
        SafeAt-bind ctx Held HeldInserted d _ _ (create_operation-SafeAt ctx d _ k)
          λ o d' e h. SafeAt-pure ctx d' HeldInserted (o, false) e.keyed h)

    lost_race-SafeAt :
        (d : Db) (key : Option Text)
        → IsKeyed d.operations
        → SafeAt ctx d HeldInserted (lost_race ctx r key)
    unfolding lost_race find_by_idempotency
    lost_race-SafeAt d none k = SafeAt-raise ctx d HeldInserted integrity_error
    lost_race-SafeAt d (some key) k = SafeAt-gets ctx d HeldInserted (find_existing r key) _ (
        SafeAt-or_raise ctx d HeldInserted (find_existing r key d) assertion _ λ o found.
          SafeAt-bind ctx Held HeldInserted d _ _
            (apply_lazy_expiry-SafeAt ctx d o k (Held-first _ d o k found))
            λ refreshed d' e h. SafeAt-pure ctx d' HeldInserted (refreshed, true) e.keyed h)

    pub insert_or_replay-SafeFrom :
        (start d : Db) (meanwhile : Db → Db) (organization : Option Text)
        → IsSafeRace ctx meanwhile
        → IsKeyed start.operations
        → Evolves ctx start d
        → SafeFrom ctx start d HeldInserted (insert_or_replay ctx meanwhile start r organization)
    unfolding insert_or_replay SafeFrom
    insert_or_replay-SafeFrom start d meanwhile organization is_safe k reached =
        let here = is_safe d reached.keyed in
        let rolled_back = is_safe start k in
        on_integrity_error-SafeFrom start (meanwhile d) (meanwhile start) HeldInserted _ _
          (SafeFrom-SafeAt ctx start (meanwhile d) HeldInserted _
            (Evolves-trans ctx start d (meanwhile d) reached here)
            (insert-SafeAt (meanwhile d) organization here.keyed))
          (SafeFrom-SafeAt ctx start (meanwhile start) HeldInserted _ rolled_back
            (lost_race-SafeAt (meanwhile start) (request_key r) rolled_back.keyed))
