-- ===== src/Service.antt =====
-- src/connman_service.c: the type and the connection state of a service, and its properties.
pub mod Info
pub mod Kind
pub mod State
pub mod Update
pub mod Details
pub mod Marks
