-- ===== src/Elf.antt =====
-- tools/ubpf/vm/ubpf_loader.c: eBPF code from an ELF file.
pub mod File
pub mod Sections
pub mod Relocate
pub mod Load
pub mod Ensures
pub mod Reads
pub mod Text
pub mod Whole
pub mod Calls
mod Tests
