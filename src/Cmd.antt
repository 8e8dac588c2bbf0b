-- ===== src/Cmd.antt =====
-- The programs of cmd/: what each does from its start on.
pub mod Interface
pub mod Worker
pub mod Manager
pub mod Operator
