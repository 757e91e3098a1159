-- ===== src/Wifi.antt =====
-- The network lists of src/wifi_service.c.
pub mod Wps
pub mod Signal
pub mod Networks
pub mod Saved
pub mod Order
pub mod Updates
pub mod Total
pub mod Removal
pub mod RemovalTotal
