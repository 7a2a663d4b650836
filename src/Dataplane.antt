-- ===== src/Dataplane.antt =====
-- internal/dataplane: workflows, their nodes and connections, and the graph over them.
pub mod Types
pub mod Connections
pub mod Graph
pub mod Wires
pub mod Inversion
pub mod Ancestry
pub mod Parents
pub mod Paths
pub mod Search
pub mod Nodes
mod Examples
