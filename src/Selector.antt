-- ===== src/Selector.antt =====
-- selector: the cache of a service's providers, and the choice of one of them.
pub mod Mode
pub mod Cache
