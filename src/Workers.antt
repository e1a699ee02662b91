-- ===== src/Workers.antt =====
-- backend/internal/workers: the bounded worker pool, and the role without one.
pub mod Pool
pub mod Consumer
pub mod System
pub mod Invariant
pub mod Safety
pub mod Losses
pub mod Ledger
pub mod Submission
pub mod Shutdown
pub mod Timed
pub mod Drain
pub mod Examples
mod Witnesses
