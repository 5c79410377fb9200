-- ===== src/Vm.antt =====
-- tools/ubpf/vm/ubpf_vm.c and ubpf_int.h: the virtual machine, one child for each group of functions.
pub mod State
pub mod Memory
pub mod Alu
pub mod Validate
pub mod Load
pub mod Exec
mod Tests
