-- ===== src/Service/Listing/Events.antt =====
-- `AuditLogRepository.list_page` and `list_audit_events`: a page of the audit log within the caller's
-- scope, the latest entries first.
use n8n_operator.Authorization.Roles.{admin}
use n8n_operator.Service.Access.{list_active_for_principal}
use n8n_operator.Service.Store.Rows.{Db}
use n8n_operator.Authorization.Evaluate.{has_role}
use n8n_operator.Audit.Chain.{AuditEntry}
use n8n_operator.Service.Listing.{
  pure, gets, invalid_arguments, is_limit, since_or_any, raise_if, list_active_for_principal,
  Session, Db, about_workflow, AuditQuery, resolve_scope, Like, in_scope,
}
use n8n_operator.Service.Outcome.{pure, gets, invalid_arguments, raise_if, Session, ◌>>=◌, ◌>>◌}
use n8n_operator.Base.{
  ◌==◌, length, codes, false, not, keep, ◌&&◌, leb, ltb, Text, if◌then◌else◌, true, List, Option,
  Bool, ℕ, none, some, [], ◌∷◌, suc, zero,
}

abbrev seq_before : Option ℕ → ℕ → Bool
seq_before none seq = true
seq_before (some before_seq) seq = ltb seq before_seq

unfoldable pub is_visible :
    Like → AuditQuery → Option (List Text) → Option Text → Bool → Db → AuditEntry → Bool
unfolding in_scope about_workflow
is_visible like q patterns environment_id with_registry db e =
    in_scope like patterns environment_id with_registry e.content db
    && (about_workflow q.workflow_id e.content db
        && (since_or_any q.since e.content.occurred_at && seq_before q.before_seq e.seq))

insert_entry : AuditEntry → List AuditEntry → List AuditEntry
insert_entry e [] = e ∷ []
insert_entry e (f ∷ fs) =
    let later = insert_entry e fs in if leb f.seq e.seq then e ∷ (f ∷ fs) else f ∷ later

-- `ORDER BY seq DESC`
unfoldable pub latest_entries : List AuditEntry → List AuditEntry
unfolding insert_entry
latest_entries [] = []
latest_entries (e ∷ es) = insert_entry e (latest_entries es)

unfoldable pub first_entries_of : ℕ → List AuditEntry → List AuditEntry
first_entries_of zero es = []
first_entries_of (suc n) [] = []
first_entries_of (suc n) (e ∷ es) = e ∷ first_entries_of n es

-- `AuditLogRepository.list_page`
unfoldable pub list_page :
    Like → AuditQuery → Option (List Text) → Option Text → Bool → Db → List AuditEntry
unfolding is_visible latest_entries first_entries_of
list_page like q patterns environment_id with_registry db = first_entries_of q.limit (
    latest_entries (keep (is_visible like q patterns environment_id with_registry db) db.audit_log))

abbrev last_seq : List AuditEntry → Option ℕ
last_seq [] = none
last_seq (e ∷ []) = some e.seq
last_seq (e ∷ (f ∷ fs)) = last_seq (f ∷ fs)

-- Whether events of the whole registry are the caller's to see.
abbrev sees_registry : Bool → Text → Db → Bool
sees_registry false principal db = true
sees_registry true principal db = has_role (list_active_for_principal principal db) admin

-- The page, and where the next one begins if this one is full.
unfoldable pub list_audit_events :
    Like → Bool → AuditQuery → Session Db (List AuditEntry × Option ℕ)
unfolding list_page resolve_scope has_role
list_audit_events like enable_v2 q = do
  raise_if (not (is_limit q.limit)) invalid_arguments
  (environment_id, patterns) ←
      resolve_scope enable_v2 q.principal_id q.environment (codes "list_audit_events")
  with_registry ← gets (sees_registry enable_v2 q.principal_id)
  rows ← gets (list_page like q patterns environment_id with_registry)
  pure (rows, (if length rows == q.limit then last_seq rows else none))
