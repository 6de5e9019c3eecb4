-- ===== src/Session.antt =====
-- The package session. A `Session` is changed by its methods; actions of `Exec` model them.
pub mod Replay
pub mod Exec
pub mod Types
pub mod World
pub mod Options
pub mod Ops
pub mod Status
pub mod Media
pub mod Wire
pub mod Gateway
pub mod Epochs
pub mod Proposals
pub mod Commits
pub mod Activation
pub mod Welcomes
pub mod Handlers
pub mod Recovery
pub mod Run
pub mod Nonces
pub mod Checks
