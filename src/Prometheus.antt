-- ===== src/Prometheus.antt =====
-- prometheus/mod.rs and prometheus/alerts.rs.
pub mod Query
pub mod Workloads
pub mod Literals
pub mod Charts
pub mod Responses
pub mod Nodes
pub mod Plans
pub mod Instances
pub mod Shown
pub mod RefIds
pub mod Alerts
pub mod Labels
pub mod Clusters
pub mod AlertOrder
pub mod Firing
mod Examples
mod ChartExamples
