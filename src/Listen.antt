-- ===== src/Listen.antt =====
-- Bind points: sockets with their locks, the listeners, and the entry of the program (filelock.go,
-- bind.go, rupicola.go, cmd/rupicola/main.go).
pub mod Paths
pub mod Kernel
pub mod Lock
pub mod Bind
pub mod Serve
pub mod Main
pub mod Conn
