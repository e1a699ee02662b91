-- ===== src/App.antt =====
-- backend/internal/app and backend/internal/api/services: the life of the process.
pub mod Server
pub mod Process
pub mod Deadline
pub mod Outcomes
pub mod Lifecycle
pub mod Accounts
pub mod Output
pub mod Timing
pub mod Observed
pub mod Secrecy
mod Witnesses
