-- ===== src/Pty.antt =====
-- pty.go and pty.c: the client of the terminal handler, and the handler.
pub mod Wire
pub mod Handler
pub mod Client
pub mod Exchange
pub mod Unit
pub mod Served
pub mod Request
pub mod RoundTrip
pub mod Stream
