-- ===== src/Mediakeys.antt =====
-- The package mediakeys: nonces, the key ratchet, exporter secrets and displayable codes.
pub mod Nonce
pub mod Ratchet
pub mod Displayable
pub mod Export
