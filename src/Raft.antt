-- ===== src/Raft.antt =====
-- The Raft replication layer (src/raft/, include/nebulakv/raft/).
pub mod Types
pub mod Node
pub mod Codec
pub mod Storage
pub mod StateMachine
