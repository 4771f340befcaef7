-- ===== src/Traffic.antt =====
-- LYDIAN/lydian/traffic: rules, clients, servers, tasks and their managers.
pub mod Rule
pub mod Client
pub mod Server
pub mod Task
pub mod Manager
