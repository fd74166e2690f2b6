-- ===== src/Service/Store/Approvals.antt =====
-- `ApprovalRepository`. The rows stand in the order of `issued_at`.
use n8n_operator.Base.{
  ℕ, Bool, ◌&&◌, ◌||◌, not, Option, none, some, List, [], ◌∷◌, ◌++◌, first, keep, any, length, Text,
  text_eq, opt_text_eq, if◌then◌else◌,
}
use n8n_operator.Service.Outcome.{Session, ok, err, assertion, multiple_results, integrity_error}
use n8n_operator.Service.Store.Rows.{Approval, DecisionKind, Db, Context}

-- `scalars(...).one_or_none()`
abbrev pub one_or_none : List Approval → Session Db (Option Approval)
one_or_none [] db = ok none db
one_or_none (a ∷ []) db = ok (some a) db
one_or_none _ db = err multiple_results none

unfoldable pub create_approval :
    Context → Text → Text → Text → ℕ → Option Text → Session Db Approval
create_approval ctx operation_id token_hash binding_hash expires_at assigned_to db =
    let row : Approval = record {
      id = ctx.new_ulid (length db.approvals);
      operation_id = operation_id;
      token_hash = token_hash;
      binding_hash = binding_hash;
      assigned_to = assigned_to;
      issued_at = ctx.now;
      expires_at = expires_at;
      decided_at = none;
      decision = none;
      decided_by = none;
      client_fingerprint = none;
    } in
    if any (λ a. text_eq a.token_hash token_hash) db.approvals
    then err integrity_error none
    else ok row (record db { approvals = db.approvals ++ row ∷ [] })

unfoldable pub get_by_token_hash : Text → Session Db (Option Approval)
get_by_token_hash token_hash db =
    one_or_none (keep (λ a. text_eq a.token_hash token_hash) db.approvals) db

unfoldable pub get_by_operation_id : Text → Session Db (Option Approval)
get_by_operation_id operation_id db =
    one_or_none (keep (λ a. text_eq a.operation_id operation_id) db.approvals) db

unfoldable pub list_for_operation : Text → Db → List Approval
list_for_operation operation_id db = keep (λ a. text_eq a.operation_id operation_id) db.approvals

abbrev pub is_slot_of : Text → Text → Approval → Bool
is_slot_of operation_id principal_id a =
    text_eq a.operation_id operation_id
    && (opt_text_eq a.assigned_to (some principal_id)
        || opt_text_eq a.decided_by (some principal_id))

unfoldable pub get_by_operation_and_decider : Text → Text → Session Db (Option Approval)
get_by_operation_and_decider operation_id principal_id db =
    one_or_none (keep (is_slot_of operation_id principal_id) db.approvals) db

abbrev or_else : Option Text → Option Text → Option Text
or_else none old = old
or_else (some new) old = some new

unfoldable pub decided : Context → DecisionKind → Text → Option Text → Approval → Approval
decided ctx decision decided_by client_fingerprint a = record a {
  decision = some decision;
  decided_by = some decided_by;
  decided_at = some ctx.now;
  client_fingerprint = or_else client_fingerprint a.client_fingerprint;
}

unfoldable pub update_approval : Text → (Approval → Approval) → List Approval → List Approval
update_approval approval_id f [] = []
update_approval approval_id f (a ∷ rest) =
    let others = update_approval approval_id f rest in
    if text_eq a.id approval_id then f a ∷ rest else a ∷ others

-- The unique constraint `uq_approvals_operation_decided_by`.
abbrev pub decides_twice : Text → Text → Text → Approval → Bool
decides_twice approval_id operation_id decided_by a =
    not (text_eq a.id approval_id)
    && text_eq a.operation_id operation_id
    && opt_text_eq a.decided_by (some decided_by)

unfoldable pub record_decision :
    Context → Text → DecisionKind → Text → Option Text → Session Db (Unit {0})
unfolding decided
record_decision ctx approval_id decision decided_by client_fingerprint db =
    elim (first (λ a. text_eq a.id approval_id) db.approvals) [
      | none ↦ err assertion none
      | some row ↦
          if any (decides_twice approval_id row.operation_id decided_by) db.approvals
          then err integrity_error none
          else ok tt (record db {
            approvals =
                update_approval approval_id (decided ctx decision decided_by client_fingerprint)
                  db.approvals;
          })
    ]
