-- ===== src/Settings.antt =====
-- The configuration record and its reading (config.go).
pub mod Def
pub mod Parse
pub mod Read
pub mod Logging
