-- ===== src/Connection.antt =====
-- pkg/connection: one connection, and the manager of all connections.
pub mod Conn
pub mod Manager
