-- ===== src/Raft/Node/Ballot.antt =====
-- Terms never fall, and a node votes once in a term (src/raft/node.cpp).
pub mod Rules
pub mod Handlers
pub mod Campaign
pub mod Once
pub mod Restarts
