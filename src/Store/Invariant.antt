-- ===== src/Store/Invariant.antt =====
-- What stays true of the tables under every transaction.
pub mod Keys
pub mod Topology
pub mod Gate
pub mod Final
