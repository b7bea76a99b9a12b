-- ===== src/Raft/Node.antt =====
-- One Raft node: src/raft/node.cpp and include/nebulakv/raft/node.hpp.
pub mod Log
pub mod State
pub mod Vote
pub mod Commit
pub mod Append
pub mod Install
pub mod Election
pub mod Replicate
pub mod Submit
pub mod Recover
pub mod Run
pub mod Ballot
mod Example
mod Tests
