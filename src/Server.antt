-- ===== src/Server.antt =====
-- server: the registration of handlers and the service of requests.
pub mod Methods
pub mod Serving
pub mod Handling
