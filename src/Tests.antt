-- ===== src/Tests.antt =====
-- Runs of the code over a small cloud in memory, and the theorems at concrete data.
mod Memory
mod Loadbalancers
mod Parts
mod Disks
mod Hosts
mod HostRuns
mod Provider
mod Helpers
mod Checks
mod Members
mod Settled
mod Deleted
mod Started
