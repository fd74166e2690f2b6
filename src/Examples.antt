-- ===== src/Examples.antt =====
-- Runs of the modelled code on small inputs.
pub mod Machine
pub mod Access
pub mod Log
pub mod Operations
pub mod Shaping
pub mod Preparing
pub mod Keys
pub mod Scopes
pub mod Documents
pub mod Votes
