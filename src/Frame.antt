-- ===== src/Frame.antt =====
-- Package frame: the DAVE frame format.
pub mod Types
pub mod Uleb128
pub mod Ranges
pub mod Gcm8
pub mod Encrypt
