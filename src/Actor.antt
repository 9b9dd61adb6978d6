-- ===== src/Actor.antt =====
-- crates/rlyeh-actor-runtime/src: the supervision of actors.
pub mod Supervisor
pub mod Restarts
pub mod Sync
mod Examples
