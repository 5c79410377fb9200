-- ===== src/X86/Conditions.antt =====
-- The conditions of the jumps of `ubpf_exec` (tools/ubpf/vm/ubpf_vm.c) in the flags of the processor.

use ve_bpf.Base.{ℕ, ◌%◌, ◌^◌, ◌<◌, ◌≡◌, refl, false, ltb, leb, ◌==◌, arith, bit_and}
use ve_bpf.Ebpf.Opcode.{Cond, jeq, jgt, jge, jset, jne, jsgt, jsge, jlt, jle, jslt, jsle}
use ve_bpf.Vm.Exec.{condition}
use ve_bpf.Jit.Translate.{jcc_code}
use ve_bpf.X86.Format.{w64}
use ve_bpf.X86.Machine.{Flags, taken, signed_less}

-- The instruction that `emit_compare` writes for a condition compares these operands.
abbrev pub compared : Cond → ℕ → ℕ → Flags
compared jset a b = record {
  zero_flag = bit_and a b == 0;
  carry = false;
  less = leb (2 ^ 63) (bit_and a b);
}
compared _ a b = record { zero_flag = a == b; carry = ltb a b; less = signed_less w64 a b }

-- The number of the condition that the jump tests.
abbrev pub condition_number : Cond → ℕ
condition_number k = jcc_code k % 16

pub taken-condition :
    (k : Cond) (a b : ℕ)
    → a < 2 ^ 64
    → b < 2 ^ 64
    → taken (condition_number k) (compared k a b) ≡ condition k a b
unfolding taken condition jcc_code
taken-condition jeq a b p q = refl
taken-condition jgt a b p q = ground arith
taken-condition jge a b p q = ground arith
taken-condition jset a b p q = refl
taken-condition jne a b p q = refl
taken-condition jsgt a b p q = ground arith
taken-condition jsge a b p q = ground arith
taken-condition jlt a b p q = refl
taken-condition jle a b p q = ground arith
taken-condition jslt a b p q = ground arith
taken-condition jsle a b p q = ground arith
