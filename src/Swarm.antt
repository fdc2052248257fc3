-- ===== src/Swarm.antt =====
-- backend/app/swarm: the control plane of the swarm.
pub mod Errors
pub mod Json
pub mod Contracts
pub mod Database
pub mod Objects
pub mod Service
pub mod Configuration
pub mod Commands
pub mod Worker
pub mod Dispatcher
pub mod Ledger
mod Examples
