-- ===== src/Nodes.antt =====
-- internal/nodes, in child modules: the merge node.
pub mod Merge
pub mod Join
pub mod Positions
pub mod Pairs
pub mod Matches
pub mod Modes
pub mod Branch
pub mod Safety
mod Examples
