-- ===== src/Service/Oversight.antt =====
-- Reads of the audit log across callers: `_require_admin`, `verify_audit_chain`,
-- `verify_anchor_against_database` and `list_reconciliation_events` of
-- src/n8n_operator/core/service.py.
use n8n_operator.Audit.Paging.{list_range}
use n8n_operator.Authorization.Roles.{admin}
use n8n_operator.Service.Access.{list_active_for_principal, get_owned_operation_row}
use n8n_operator.Audit.Chain.{verify_chain, intact, broken, AuditEntry, ChainVerificationResult}
use n8n_operator.Service.Store.Rows.{Db, Context}
use n8n_operator.Authorization.Evaluate.{has_role}
use n8n_operator.Service.Outcome.{
  insufficient_role, raise_if, assertion, raise, pure, gets, Session, ◌>>=◌, ◌>>◌,
}
use n8n_operator.Base.{
  ◌==◌, true, false, not, ◌&&◌, keep, codes, text_eq, if◌then◌else◌, Option, Text, Bool, List, ℕ,
  none, some, [], ◌∷◌,
}

-- `_require_admin`; in v2 every caller has a principal.
unfoldable pub require_admin : Bool → Option Text → Session Db (Unit {0})
unfolding has_role
require_admin false principal = pure tt
require_admin true none = raise assertion
require_admin true (some principal) = do
  memberships ← gets (list_active_for_principal principal)
  raise_if (not (has_role memberships admin)) insufficient_role

-- `verify_audit_chain`, of the whole log
unfoldable pub verify_audit_chain :
    Context → Bool → Option Text → Session Db ChainVerificationResult
unfolding require_admin
verify_audit_chain ctx enable_v2 principal = do
  require_admin enable_v2 principal
  entries ← gets (λ db. db.audit_log)
  pure (verify_chain ctx.digest entries)

-- `AnchorVerification`: what it checked through, or why it fails.
pub data AnchorVerification : Type 0 where
  anchored : ℕ → AnchorVerification
  no_entry : AnchorVerification
  chain_broken : ℕ → AnchorVerification
  other_hash : AnchorVerification

abbrev last_entry : List AuditEntry → Option AuditEntry
last_entry [] = none
last_entry (e ∷ []) = some e
last_entry (e ∷ (f ∷ fs)) = last_entry (f ∷ fs)

unfoldable pub judge_anchor : ChainVerificationResult → ℕ → Text → AuditEntry → AnchorVerification
judge_anchor (broken seq reason) covers_through_seq entry_hash e = chain_broken seq
judge_anchor intact covers_through_seq entry_hash e =
    if text_eq e.entry_hash entry_hash then anchored covers_through_seq else other_hash

-- `verify_anchor_against_database`, of the entries of the copy
unfoldable pub verify_anchor : Context → ℕ → Text → List AuditEntry → AnchorVerification
unfolding judge_anchor list_range
verify_anchor ctx covers_through_seq entry_hash log =
    let entries = list_range 1 covers_through_seq log in
    elim (last_entry entries) [
      | none ↦ no_entry
      | some e ↦
          if e.seq == covers_through_seq
          then judge_anchor (verify_chain ctx.digest entries) covers_through_seq entry_hash e
          else no_entry
    ]

-- The entries on one operation that record a reconciliation, in the order of the log.
unfoldable pub list_reconciliation_events :
    Context → Bool → Text → Text → Session Db (List AuditEntry)
list_reconciliation_events ctx enable_v2 operation_id principal = do
  get_owned_operation_row ctx enable_v2 operation_id principal (codes "get_operation")
  entries ← gets (λ db. db.audit_log)
  pure (
      keep
        (λ e.
          text_eq e.content.subject_type (codes "operation")
          && (text_eq e.content.subject_id operation_id
              && text_eq e.content.action (codes "operation.reconciliation_recorded")))
        entries)
