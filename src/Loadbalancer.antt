-- ===== src/Loadbalancer.antt =====
-- The load balancer controller, internal/edgecenter/loadbalancer*.go.
pub mod Names
pub mod Options
pub mod Registry
pub mod Settled
pub mod Retry
pub mod Listeners
pub mod Pools
pub mod Members
pub mod FloatingIps
pub mod Find
pub mod Ensure
pub mod Delete
