-- ===== src/Session/Wire.antt =====
-- session/mls.go: the two encodings that the session reads and writes itself, user ids and the
-- length of a TLS vector.
pub mod Identity
pub mod Vectors
