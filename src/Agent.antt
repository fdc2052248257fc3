-- ===== src/Agent.antt =====
-- The chat agent's plan, its todo list and its memory (backend/app/domain).
pub mod Plan
pub mod Todo
pub mod Memory
pub mod Calls
pub mod Loop
pub mod Execution
pub mod Planner
pub mod Flow
pub mod Chat
pub mod Runner
pub mod Runs
mod Examples
