-- ===== src/P2p.antt =====
-- The package p2p: transactions, conflict resolution and the host.
pub mod Transactions
pub mod Conflicts
pub mod Responses
pub mod Host
pub mod Network
