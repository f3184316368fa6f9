-- ===== src/Login.antt =====
-- login.go: the login by QR code.
pub mod Options
pub mod Request
pub mod Status
pub mod Wait
