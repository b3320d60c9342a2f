-- ===== src/Daemon.antt =====
-- internal/daemon: what it does around the transactions of internal/state.
pub mod Activation
pub mod Session
pub mod Replies
pub mod Dialogue
