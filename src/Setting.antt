-- ===== src/Setting.antt =====
-- src/wifi_setting.c: the wifi profiles in the preference store, and the paths of config files.
pub mod Cipher
pub mod Store
pub mod Load
pub mod Networks
pub mod RoundTrip
