-- ===== src/Provider.antt =====
-- The cloud provider object: internal/edgecenter/edgecenter.go, and routes.go.
pub mod Config
pub mod Options
pub mod Create
pub mod Identity
pub mod Zones
pub mod Services
pub mod Metrics
pub mod Start
