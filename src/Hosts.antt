-- ===== src/Hosts.antt =====
-- The hosts of a testbed: the connection to one over SSH, and how it is prepared and cleaned up.
pub mod Ssh
pub mod Enter
pub mod Available
pub mod Prep
