-- ===== src/Metadata.antt =====
-- The metadata of the instance that the controller runs on: internal/util/metadata/metadata.go.
pub mod Sources
pub mod Search
pub mod Order
