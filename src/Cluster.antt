-- ===== src/Cluster.antt =====
-- A client and the servers that store a key: done/network.c and done/pps-launch-server.c together.
pub mod Deliver
pub mod PutGet
pub mod Lossy
pub mod Overlap
pub mod Fresh
