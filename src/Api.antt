-- ===== src/Api.antt =====
-- backend/internal/api: the request log and the probes of the HTTP API.
pub mod Attrs
pub mod Logger
pub mod Safety
pub mod Budget
pub mod Records
pub mod Probes
pub mod Scrape
pub mod Server
mod Witnesses
