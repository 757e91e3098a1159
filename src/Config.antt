-- ===== src/Config.antt =====
-- The config files of networks in src/wifi_setting.c, which connman reads.
pub mod KeyFile
pub mod Change
pub mod Network
pub mod Kept
