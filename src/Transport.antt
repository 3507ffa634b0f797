-- ===== src/Transport.antt =====
-- transport: sockets, clients and listeners over TCP and HTTP.
pub mod Accepting
pub mod Listening
pub mod HttpClient
pub mod HttpSocket
pub mod Tcp
mod Runs
