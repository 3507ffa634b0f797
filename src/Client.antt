-- ===== src/Client.antt =====
-- client: the calls of a dubbo client and its pool of connections.
pub mod Pool
pub mod Retry
