-- ===== src/Remote.antt =====
-- How the parts of the system reach each other: LYDIAN/lydian/controller/client.py and
-- LYDIAN/lydian/utils.
pub mod Connect
pub mod Service
pub mod Managers
pub mod Parallel
pub mod Network
pub mod Addrs
pub mod Namespaces
