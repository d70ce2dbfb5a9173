-- ===== src/Cloud.antt =====
-- What the controller uses of the Edgecenter cloud API and of Kubernetes: the data of both, the
-- API calls, the waiting loop of apimachinery, and the host that the controller runs on.
pub mod Types
pub mod Client
pub mod Wait
pub mod Host
