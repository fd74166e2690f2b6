-- ===== src/Service.antt =====
-- The use cases of src/n8n_operator/core/service.py over the tables of
-- src/n8n_operator/storage/repository.py.
pub mod Outcome
pub mod Store
pub mod Transition
pub mod Registry
pub mod Access
pub mod Ports
pub mod Execute
pub mod Handles
pub mod Approve
pub mod Idempotency
pub mod Validation
pub mod Eligible
pub mod Notify
pub mod Prepare
pub mod Retry
pub mod Report
pub mod Sweep
pub mod Reconcile
pub mod Routing
pub mod Reload
pub mod Discovery
pub mod Drift
pub mod Listing
pub mod Redeliver
pub mod Oversight
pub mod History
pub mod Sessions
pub mod Calls
pub mod Lifecycle
