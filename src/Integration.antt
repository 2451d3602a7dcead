-- ===== src/Integration.antt =====
-- integration.rs, and the service classifiers of elastic/transport.rs and prometheus/transport.rs.
pub mod Target
pub mod Bindings
pub mod Tunnel
pub mod Tunnels
pub mod Classify
pub mod Detect
pub mod DetectAll
pub mod Ranking
pub mod Picks
pub mod Detection
mod Examples
mod Stacks
