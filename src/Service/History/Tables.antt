-- ===== src/Service/History/Tables.antt =====
-- The handle column, and the tables that are neither `operations` nor `audit_log`.
use n8n_operator.Service.History.Updates.{
  update_where-Follows, update_where-IsKeyed, burned-Selected,
}
use n8n_operator.Service.History.Rows.{Follows-refl, IsKeyed}
use n8n_operator.Service.History.Safe.{Evolves-refl, Ends, Anything, SafeAt}
use n8n_operator.Service.Store.Approvals.{
  is_slot_of, one_or_none, decides_twice, get_by_operation_and_decider, get_by_operation_id,
  record_decision, create_approval,
}
use n8n_operator.Service.Store.Operations.{is_unburned, burn_handle}
use n8n_operator.Service.Store.Rows.{Approval, DecisionKind, Db, Context}
use n8n_operator.Base.{
  Option-cases, Bool-cases, refl, ℕ, Option, Text, List, [], ◌∷◌, inl, inr, keep, any, first,
  text_eq,
}

module _ (ctx : Context) where
  pub burn_handle-SafeAt :
      (d : Db) (i : Text) → IsKeyed d.operations → SafeAt ctx d Anything (burn_handle ctx i)
  unfolding burn_handle SafeAt
  burn_handle-SafeAt d i k =
      let chosen = burned-Selected ctx i d.operations in
      (
        record {
          keyed = update_where-IsKeyed (is_unburned i) _ d.operations chosen k;
          rows = update_where-Follows (is_unburned i) _ d.operations chosen;
          log = refl;
        },
        tt,
      )

  pub get_by_operation_and_decider-SafeAt :
      (d : Db) (i p : Text)
      → IsKeyed d.operations
      → SafeAt ctx d Anything (get_by_operation_and_decider i p)
  unfolding get_by_operation_and_decider SafeAt
  get_by_operation_and_decider-SafeAt d i p k =
      one_or_none-Ends d (keep (is_slot_of i p) d.approvals) k
    where
      one_or_none-Ends :
          (d : Db) (found : List Approval)
          → IsKeyed d.operations
          → Ends ctx d Anything (one_or_none found d)
      one_or_none-Ends d [] k = (Evolves-refl ctx d k, tt)
      one_or_none-Ends d (a ∷ []) k = (Evolves-refl ctx d k, tt)
      one_or_none-Ends d (a ∷ b ∷ rest) k = tt

  pub get_by_operation_id-SafeAt :
      (d : Db) (i : Text) → IsKeyed d.operations → SafeAt ctx d Anything (get_by_operation_id i)
  unfolding get_by_operation_id SafeAt
  get_by_operation_id-SafeAt d i k = go (keep (λ a. text_eq a.operation_id i) d.approvals)
    where
      go : (found : List Approval) → Ends ctx d Anything (one_or_none found d)
      go [] = (Evolves-refl ctx d k, tt)
      go (a ∷ []) = (Evolves-refl ctx d k, tt)
      go (a ∷ b ∷ rest) = tt

  pub create_approval-SafeAt :
      (d : Db) (i h b : Text) (e : ℕ) (p : Option Text)
      → IsKeyed d.operations
      → SafeAt ctx d Anything (create_approval ctx i h b e p)
  unfolding create_approval SafeAt
  create_approval-SafeAt d i h b e p k =
      elim (Bool-cases (any (λ a. text_eq a.token_hash h) d.approvals)) [
        | inl taken ↦ rw taken tt
        | inr free ↦
            rw free (record { keyed = k; rows = Follows-refl d.operations; log = refl }, tt)
      ]

  pub record_decision-SafeAt :
      (d : Db) (i : Text) (decision : DecisionKind) (p : Text) (f : Option Text)
      → IsKeyed d.operations
      → SafeAt ctx d Anything (record_decision ctx i decision p f)
  unfolding record_decision SafeAt
  record_decision-SafeAt d i decision p f k =
      elim (Option-cases (first (λ a. text_eq a.id i) d.approvals)) [
        | inl gone ↦ rw (SafeAt, record_decision, gone) tt
        | inr (row, found) ↦
            elim (Bool-cases (any (decides_twice i row.operation_id p) d.approvals)) [
              | inl twice ↦ rw (SafeAt, record_decision, found, twice) tt
              | inr once ↦
                  rw (SafeAt, record_decision, found, once)
                    (record { keyed = k; rows = Follows-refl d.operations; log = refl }, tt)
            ]
      ]
