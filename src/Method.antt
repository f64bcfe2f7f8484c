-- ===== src/Method.antt =====
-- Methods as they are configured, checked and turned into commands (config.go, rpcmethod.go).
pub mod Def
pub mod Params
pub mod Args
pub mod Validate
