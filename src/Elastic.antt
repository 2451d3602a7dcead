-- ===== src/Elastic.antt =====
-- elastic/mod.rs: log history in Elasticsearch and links to Kibana.
pub mod Types
pub mod Escapes
pub mod Links
pub mod Readers
pub mod Discover
pub mod Search
pub mod Response
pub mod Paging
pub mod Transport
pub mod History
pub mod PointInTime
pub mod Live
pub mod Released
mod Examples
mod PageExamples
