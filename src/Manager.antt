-- ===== src/Manager.antt =====
-- src/connman_manager.c: the manager's lists of services and technologies.
pub mod State
pub mod Services
pub mod Lookup
pub mod Connected
pub mod Counts
pub mod Removal
pub mod Signals
pub mod Technologies
pub mod Online
pub mod Total
