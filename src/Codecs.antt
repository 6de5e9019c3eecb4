-- ===== src/Codecs.antt =====
-- The package codecs: which bytes of a frame stay clear, and the entry points that seal a frame.
pub mod Types
pub mod Vp8
pub mod H26x
pub mod Av1
pub mod Dispatch
