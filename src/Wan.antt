-- ===== src/Wan.antt =====
-- src/wan_service.c: cellular connections.
pub mod Status
pub mod Connect
pub mod Answers
