-- ===== src/Registry.antt =====
-- registry: service urls and the configurations that select them.
pub mod Service
pub mod Urls
