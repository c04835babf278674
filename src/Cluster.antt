-- ===== src/Cluster.antt =====
-- internal/cluster: hash slots, the nodes that own them, and redirections.
pub mod Table
pub mod Slot
pub mod Tags
pub mod Node
pub mod Counted
pub mod Changes
pub mod Ranges
pub mod Redirect
mod Tests
