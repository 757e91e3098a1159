-- ===== src/Utils.antt =====
-- src/utils.c: the conversion of SSIDs, the prefix of object paths, the check of passphrases.
pub mod Ssid
pub mod Prefix
pub mod Passphrase
