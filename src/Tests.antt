-- ===== src/Tests.antt =====
-- Concrete inputs at which the theorems are applied.
mod Cdn
mod Client
mod Confirms
mod Crypto
mod TokenCache
mod Transfer
mod Markdown
mod Notify
mod Storage
mod Delivery
mod Diagnostics
mod Example
mod Process
mod Files
mod Listener
mod Login
