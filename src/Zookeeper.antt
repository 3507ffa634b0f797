-- ===== src/Zookeeper.antt =====
-- registry/zk: the registry over zookeeper.
pub mod Consumer
pub mod Provider
pub mod Watcher
