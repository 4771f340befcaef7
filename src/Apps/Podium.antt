-- ===== src/Apps/Podium.antt =====
-- `Podium` of LYDIAN/lydian/apps/podium.py, the primary node: which host an endpoint is on, and how
-- the rules of a request are sent to the hosts.
pub mod Endpoints
pub mod Traffic
pub mod Cluster
pub mod Latency
pub mod Mesh
pub mod Stats
pub mod Measure
pub mod Primary
pub mod Nodes
pub mod Answers
