-- ===== src/Config.antt =====
-- The package config: reading, merging and querying the configuration.
pub mod Value
pub mod Merge
pub mod Load
