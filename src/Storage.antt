-- ===== src/Storage.antt =====
-- storage.go: the cursor stores and the credentials file.
pub mod Memory
pub mod Path
pub mod File
