-- ===== src/Service/Store/Logs.antt =====
-- `OperationEventRepository.append`, and the audit log of the session's database.
use n8n_operator.Base.{[], ◌∷◌, ◌++◌, Text}
use n8n_operator.Json.{Json}
use n8n_operator.Audit.Writer.{write}
use n8n_operator.Service.Outcome.{Session, ok}
use n8n_operator.Service.Store.Rows.{OperationEvent, Db, Context}

unfoldable pub append_event : OperationEvent → Session Db (Unit {0})
append_event e db = ok tt (record db { events = db.events ++ e ∷ [] })

-- `audit_writer.write(AuditLogRepository(session), ...)`
unfoldable pub write_audit :
    Context → Text → Text → Text → Text → Text → Json → Session Db (Unit {0})
write_audit ctx actor action subject_type subject_id outcome detail db = ok tt (record db {
  audit_log =
      write ctx.digest
        (record {
          occurred_at = ctx.now;
          actor = actor;
          action = action;
          subject_type = subject_type;
          subject_id = subject_id;
          outcome = outcome;
          detail = detail;
        })
        db.audit_log;
})
