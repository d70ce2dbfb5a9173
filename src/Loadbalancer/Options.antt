-- ===== src/Loadbalancer/Options.antt =====
-- The settings of a Service: resolveServiceOptions of internal/edgecenter/loadbalancer.go, with the
-- annotations, the listener timeouts, the TLS secret and the source ranges that it reads.
pub mod Annotations
pub mod Config
pub mod Secrets
pub mod Networks
pub mod Resolve
