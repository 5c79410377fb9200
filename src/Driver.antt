-- ===== src/Driver.antt =====
-- tools/ubpf/vm/test.c: the command line of the virtual machine.
pub mod ReadFile
pub mod Files
pub mod Options
pub mod Main
pub mod Runs
mod Tests
