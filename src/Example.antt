-- ===== src/Example.antt =====
-- examples/basic/main.go: the example program.
pub mod Reply
pub mod Record
pub mod Handler
pub mod Settled
pub mod Login
pub mod Run
pub mod Complete
pub mod Remember
pub mod Listens
