-- ===== src/Service/Store.antt =====
-- The tables that the modelled use cases read and write (src/n8n_operator/storage/models.py) and
-- the repository methods on them (src/n8n_operator/storage/repository.py). A table is the list of
-- its rows; a row that the session holds is a value, and reading it again reads the table.
pub mod Rows
pub mod Operations
pub mod Approvals
pub mod Logs
