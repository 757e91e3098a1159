-- ===== src/Pan.antt =====
-- The bluetooth connections, the status and the tethering of src/pan_service.c.
pub mod Connect
pub mod Answers
pub mod Ends
pub mod Status
pub mod Tethering
pub mod Switched
