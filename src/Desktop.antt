-- ===== src/Desktop.antt =====
-- The desktop application's own state over the core crate: apps/desktop/src-tauri/src/commands.
pub mod Cache
pub mod Vault
pub mod Elastic
mod Examples
