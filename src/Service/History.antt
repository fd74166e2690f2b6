-- ===== src/Service/History.antt =====
-- What may become of the rows of `operations` between two states of the database.
pub mod Rows
pub mod Updates
pub mod Safe
pub mod Held
pub mod Transitions
pub mod Tables
pub mod Creation
pub mod Prepare
pub mod Settle
pub mod Retry
pub mod Report
pub mod Reload
pub mod Redeliver
pub mod UseCases
pub mod Votes
