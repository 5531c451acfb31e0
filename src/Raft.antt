-- ===== src/Raft.antt =====
-- ALL_CODE_350/starter-1/raft: one Raft peer (raft.go, persister.go) and the messages between peers.
pub mod State
pub mod Persist
pub mod Vote
pub mod Append
pub mod Leader
pub mod Election
pub mod Apply
pub mod Terms
pub mod Cluster
pub mod Replication
pub mod Restart
pub mod Timers
mod Tests
