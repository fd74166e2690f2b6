-- ===== src/Audit.antt =====
-- The hash-chained audit log: src/n8n_operator/audit/chain.py and audit/writer.py, over the rows
-- of `AuditLogRepository` (src/n8n_operator/storage/repository.py).
pub mod Chain
pub mod Writer
pub mod Verify
pub mod Paging
