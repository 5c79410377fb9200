-- ===== src/X86.antt =====
-- The part of the x86-64 instruction set that tools/ubpf/vm/ubpf_jit_x86_64.h writes, as the manual of
-- the architecture describes it: the format of the instructions, and what they do to the registers.
pub mod Format
pub mod Machine
pub mod Reads
pub mod Sets
pub mod Values
pub mod Instructions
pub mod Emitted
pub mod Alu
pub mod Computes
pub mod Cases
pub mod Agrees
pub mod Block
pub mod Conditions
pub mod Jumps
pub mod Stretch
pub mod Branch
mod Tests
