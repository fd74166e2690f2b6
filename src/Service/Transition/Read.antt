-- ===== src/Service/Transition/Read.antt =====
-- What `_get_operation_row` of src/n8n_operator/core/service.py returns.
use n8n_operator.Service.Outcome.Steps.{ok-or_raise, ok-gets, same_result, ok-pure}
use n8n_operator.StateMachine.Legal.{overdue_expiry_transition_lem}
use n8n_operator.Json.{end, obj}
use n8n_operator.Service.Transition.Contract.{apply_and_audit_fresh}
use n8n_operator.Service.Outcome.{err, invalid_state_transition, Result, pure, Session, ok}
use n8n_operator.StateMachine.{validate_transition, Transition, expired, overdue_expiry_transition}
use n8n_operator.Service.Transition.{
  get_operation_row, apply_lazy_expiry, obj, ok, validate_transition, Transition,
  overdue_expiry_transition, on_invalid_transition, expire_row,
}
use n8n_operator.Service.Store.Operations.{no_updates, moved, get_operation}
use n8n_operator.Service.History.Rows.{first-has_id, IsKeyed}
use n8n_operator.Service.Store.Rows.{Operation, Db, Context}
use n8n_operator.Base.{
  subst, ◌∙◌, ap, sym, codes, ◌≡◌, refl, Option, Text, inl, inr, ◌⊎◌, none, some,
}

-- The row as it stands, with no deadline passed, or a row that has expired now or meanwhile.
abbrev pub ReadsRow : Context → Text → Db → Operation → Db → Type 0
ReadsRow ctx i d row c =
    ((c ≡ d)
      × (get_operation i d ≡ some row)
      × (overdue_expiry_transition row.state ctx.now row.approval_expires_at row.execution_deadline
          ≡ none))
    ⊎ (row.state ≡ expired)

pub on_invalid_transition-ok :
    {A : Type 0} (m handler : Session Db A) (d : Db) {a : A} {c : Db}
    → m d ≡ ok a c
    → on_invalid_transition m handler d ≡ ok a c
unfolding on_invalid_transition
on_invalid_transition-ok {A} m handler d e =
    ap
      (λ r. elim r as (λ _. Result Db A) [
        | ok a c ↦ ok a c
        | err invalid_state_transition kept ↦ handler d
        | err x kept ↦ err x kept
      ])
      e

pub get_operation_id : (i : Text) (d : Db) {o : Operation} → get_operation i d ≡ some o → o.id ≡ i
unfolding get_operation
get_operation_id i d h = first-has_id i d.operations h

module _ (ctx : Context) (d : Db) (k : IsKeyed d.operations) where
  expire_row-ok :
      (found row : Operation) (c : Db) (t : Transition)
      → get_operation found.id d ≡ some found
      → validate_transition t.id (some found.state) ≡ some t
      → t.to_state ≡ expired
      → expire_row ctx found t d ≡ ok row c
      → row.state ≡ expired
  unfolding expire_row moved
  expire_row-ok found row c t present passes lands h =
      let moves =
        apply_and_audit_fresh ctx d k found present t.id (codes "clock") (obj end) no_updates t
          passes in
      let same = (same_result (sym (on_invalid_transition-ok _ _ d moves) ∙ h)).0 in
      rw (← same) lands

  apply_lazy_expiry-ok :
      (found row : Operation) (c : Db)
      → get_operation found.id d ≡ some found
      → apply_lazy_expiry ctx found d ≡ ok row c
      → ReadsRow ctx found.id d row c
  unfolding apply_lazy_expiry
  apply_lazy_expiry-ok found row c present h =
      go
        (overdue_expiry_transition found.state ctx.now found.approval_expires_at
          found.execution_deadline)
        refl h
    where
      go :
          (v : Option Transition)
          → overdue_expiry_transition found.state ctx.now found.approval_expires_at
              found.execution_deadline
            ≡ v
          → (elim v as (λ _. Session Db Operation) [
            | none ↦ pure found
            | some transition ↦ expire_row ctx found transition
          ])
              d
            ≡ ok row c
          → ReadsRow ctx found.id d row c
      go none in_time h =
          let (same, unchanged) = ok-pure found d h in
          inl (
            sym unchanged,
            present ∙ ap some same,
            subst
                (λ (r : Operation).
                  overdue_expiry_transition r.state ctx.now r.approval_expires_at
                    r.execution_deadline
                  ≡ none)
                same in_time,
          )
      go (some t) due h =
          let (passes, lands) =
            (overdue_expiry_transition_lem found.state ctx.now found.approval_expires_at
                found.execution_deadline).1
              t due in
          inr (expire_row-ok found row c t present passes lands h)

  pub get_operation_row-ok :
      (i : Text) (row : Operation) (c : Db)
      → get_operation_row ctx i d ≡ ok row c
      → ReadsRow ctx i d row c
  unfolding get_operation_row
  get_operation_row-ok i row c h =
      let h' = ok-gets (get_operation i) _ d h in
      let (found, present, h'') = ok-or_raise (get_operation i d) _ _ d h' in
      let same : found.id ≡ i = get_operation_id i d present in
      subst (λ j. ReadsRow ctx j d row c) same
        (apply_lazy_expiry-ok found row c
          (subst (λ j. get_operation j d ≡ some found) (sym same) present) h'')
