-- ===== src/Examples.antt =====
-- Concrete runs: a concrete host for the parameters of the settings, and each result at an input.
mod Host
mod Scan
mod Profile
mod Network
mod Sort
mod Wifi
mod Group
pub mod Connection
pub mod Config
mod Setters
mod Pan
mod Wan
