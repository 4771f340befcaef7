-- ===== src/Apps.antt =====
-- LYDIAN/lydian/apps: the applications of a node and of the primary node.
pub mod Rules
pub mod Controller
pub mod Config
pub mod Podium
pub mod Iperf
pub mod Console
pub mod Capture
pub mod Scan
pub mod Mock
pub mod Monitor
pub mod Background
pub mod Records
