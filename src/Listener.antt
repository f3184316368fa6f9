-- ===== src/Listener.antt =====
-- listener.go: the long-poll listener of the client.
pub mod Backoff
pub mod Env
pub mod Dispatch
pub mod Batch
pub mod Loop
