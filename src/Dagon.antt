-- ===== src/Dagon.antt =====
-- dagon/src: the package manager.
pub mod Version
pub mod Ranges
pub mod Text
mod Examples
