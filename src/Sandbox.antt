-- ===== src/Sandbox.antt =====
-- The sandbox's own service (sandbox/app).
pub mod Supervisor
mod Examples
