-- ===== src/Session/Checks.antt =====
-- What the session checks before it changes anything: user ids, vectors, proposals, commits, senders.
pub mod Ids
pub mod Wires
pub mod Inspection
pub mod Members
pub mod Forged
pub mod Batches
pub mod Refs
pub mod Senders
pub mod Passthrough
