-- ===== src/Node.antt =====
-- The node daemon: `crates/node/src`.
pub mod Error
pub mod Docker
pub mod Files
pub mod Guard
pub mod Service
pub mod Backups
pub mod Toy
pub mod Shell
