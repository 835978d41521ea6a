-- ===== src/Snode.antt =====
-- snode: the storage node.
pub mod LtHash
pub mod Parity
pub mod State
pub mod PromoteMatch
pub mod OwnerAudit
