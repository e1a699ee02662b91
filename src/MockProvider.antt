-- ===== src/MockProvider.antt =====
-- backend/internal/mockprovider: a stand-in for a GPU provider's API with injected faults.
pub mod Scenario
pub mod Endpoint
pub mod Advance
pub mod Store
pub mod Clock
pub mod Handlers
pub mod Lifecycle
pub mod Traffic
pub mod Calls
pub mod Soundness
pub mod Faults
pub mod Concurrent
mod Witnesses
