-- ===== src/Accounts.antt =====
-- Accounts and what lets a request in (backend/app/application/services).
pub mod Errors
pub mod Users
pub mod Sessions
pub mod Tokens
pub mod Urls
pub mod Passwords
pub mod Login
pub mod Access
mod Examples
mod Runs
