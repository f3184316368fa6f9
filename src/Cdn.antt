-- ===== src/Cdn.antt =====
-- cdn.go and client.go: the transfers to the CDN.
pub mod Upload
pub mod Transfer
pub mod Download
