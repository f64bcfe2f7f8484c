-- ===== src/Server.antt =====
-- The HTTP server and the processes that it starts (utils.go, processor.go, rpcmethod.go).
pub mod Command
pub mod Http
