-- ===== src/Cluster.antt =====
-- src/cluster: how the nodes of a cluster watch each other.
pub mod SplitBrain
