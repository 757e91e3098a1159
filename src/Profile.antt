-- ===== src/Profile.antt =====
-- src/wifi_profile.c: the list of wifi profiles.
pub mod State
pub mod Ops
pub mod Distinct
pub mod Invariant
pub mod Deletion
