-- ===== src/Raft.antt =====
-- internal/controller/raft.go: one Raft node, its handlers, its elections and its messages.
pub mod Clock
pub mod Node
pub mod Vote
pub mod Append
pub mod Election
pub mod Message
pub mod Steps
pub mod World
