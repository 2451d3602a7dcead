-- ===== src/Kubeconfig.antt =====
-- kubeconfig.rs, types.rs, error.rs and context.rs.
pub mod Types
pub mod Yaml
pub mod Redefined
pub mod Merge
pub mod Access
pub mod Resolve
pub mod FirstWins
pub mod Loaded
pub mod Resolution
pub mod Total
pub mod Switch
pub mod Redefinitions
pub mod Saved
pub mod Persist
pub mod Discovery
pub mod Codec
mod Examples
