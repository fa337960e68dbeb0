-- ===== src/Cmd.antt =====
-- The programs under cmd/.
pub mod Cobra
pub mod Acl
pub mod S5
pub mod Serve
pub mod Main
