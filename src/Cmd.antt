-- ===== src/Cmd.antt =====
-- cmd: the commands of the program, from their configuration to what they change. What a command
-- prints is left out, unless it is its answer.
pub mod Root
pub mod Update
pub mod Serve
pub mod Secure
pub mod Verify
pub mod Check
pub mod SetMode
pub mod RotateSecret
pub mod Wizard
