-- ===== src/Jit.antt =====
-- tools/ubpf/vm/ubpf_jit_x86_64.h and ubpf_jit_x86_64.c: the translation of eBPF to x86-64 code.
pub mod State
pub mod Emit
pub mod Registers
pub mod Translate
pub mod Resolve
pub mod Compile
pub mod Keeps
pub mod Layout
pub mod Starts
pub mod Targets
pub mod Lands
pub mod Writes
mod Tests
