-- ===== src/Storage.antt =====
-- backend/internal/storage: the database handle, its migrations, and the statements of the store.
pub mod Db
pub mod Urls
pub mod Durable
pub mod Json
pub mod Sql
pub mod Models
pub mod Store
pub mod RoundTrips
pub mod Tables
pub mod Endpoints
pub mod Telemetry
pub mod Measured
pub mod Requests
pub mod Schema
pub mod Redaction
mod Witnesses
