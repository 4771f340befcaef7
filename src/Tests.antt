-- ===== src/Tests.antt =====
-- Runs of the definitions at concrete inputs, and the theorems at inputs where their hypotheses hold.
mod Hosts
mod Servers
mod Tools
mod Discovery
mod Memory
mod Texts
mod Traffic
mod Podium
mod Remote
mod Rules
mod Cluster
mod Service
mod Records
mod Calls
mod Nodes
mod Scans
mod Json
mod Settings
