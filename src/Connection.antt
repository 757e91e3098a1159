-- ===== src/Connection.antt =====
-- src/connectionmanager_service.c: the status of all connections, and the settings of addresses.
pub mod State
pub mod Message
pub mod P2p
pub mod Reply
pub mod Changes
pub mod Send
pub mod Told
pub mod Silence
pub mod Typed
pub mod DirectTyped
pub mod ReplyTyped
pub mod Setters
pub mod Handlers
pub mod Sound
pub mod Sent
pub mod Answers
