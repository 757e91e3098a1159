-- ===== src/Scan.antt =====
-- src/wifi_scan.c: the scheduling of wifi scans, with the asynchronous Scan call of
-- src/connman_technology.c under it.
pub mod State
pub mod Interval
pub mod Ops
pub mod Minimum
pub mod Removal
pub mod Invariant
pub mod Steps
pub mod Effects
pub mod Liveness
