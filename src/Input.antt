-- ===== src/Input.antt =====
-- What base reads: the output of a command (shell_util.h), a file by lines or mapped into memory
-- (read_op.h and read_op.cc).
pub mod Lines
pub mod Shell
pub mod Read
pub mod Mapped
pub mod FileOp
mod Tests
