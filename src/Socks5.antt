-- ===== src/Socks5.antt =====
-- internal/socks5/socks5.go, and its client in internal/api/socksclient.go. A connection is the bytes
-- that the peer will send, the bytes written to it, and how many writes still succeed.
pub mod Pipe
pub mod Conn
pub mod Server
pub mod Client
pub mod Reading
pub mod Accepts
pub mod Rejects
pub mod Interop
mod Examples
