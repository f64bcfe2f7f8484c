-- ===== src/Rpc.antt =====
-- The package rupicolarpc.
pub mod Value
pub mod Errors
pub mod Limit
pub mod Base
pub mod Plain
pub mod Legacy
pub mod Streaming
pub mod Responser
pub mod Registry
pub mod Decode
pub mod Process
pub mod Format
