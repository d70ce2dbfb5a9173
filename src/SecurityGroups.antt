-- ===== src/SecurityGroups.antt =====
-- internal/edgecenter/loadbalancer_securitygroups.go: the security group of a Service.
pub mod Rules
pub mod Nodes
pub mod Ensure
pub mod Update
