-- ===== src/Jit/Translate/Alu.antt =====
-- The ALU cases of `translate`, and `muldivmod` (tools/ubpf/vm/ubpf_jit_x86_64.c).
use ve_bpf.Base.{ℕ, ◌-◌, ◌^◌, bit_and, not, ◌||◌, ◌==◌, if◌then◌else◌}
use ve_bpf.Base.Word.{u16, sext32}
use ve_bpf.Ebpf.{Inst}
use ve_bpf.Ebpf.Opcode.{
  Source, src_imm, src_reg, AluOp, add, sub, mul, div, or, and, lsh, rsh, modulo, xor, mov, arsh,
}
use ve_bpf.Jit.State.{Emit, ◌>>◌, when}
use ve_bpf.Jit.Emit.{
  rax, rcx, rdx, emit_rex, emit_push, emit_pop, emit_alu32, emit_alu32_imm32, emit_alu32_imm8,
  emit_alu64, emit_alu64_imm32, emit_alu64_imm8, emit_mov, emit_jcc, emit_load_imm,
}

-- `TARGET_PC_EXIT` and `TARGET_PC_DIV_BY_ZERO`, -1 and -2 as `uint32_t`.
abbrev pub target_pc_exit : ℕ
target_pc_exit = 2 ^ 32 - 1

abbrev pub target_pc_div_by_zero : ℕ
target_pc_div_by_zero = 2 ^ 32 - 2

-- `muldivmod`, on the opcode byte. `imm` is the pattern of an `int32_t`.
unfoldable pub muldivmod : ℕ → ℕ → ℕ → ℕ → ℕ → Emit
unfolding emit_load_imm emit_alu64 emit_alu32 emit_jcc emit_push emit_pop emit_mov emit_rex
muldivmod pc opcode src dst imm =
    let is_mul = bit_and opcode 0xf0 == 0x20 in
    let is_div = bit_and opcode 0xf0 == 0x30 in
    let is_mod = bit_and opcode 0xf0 == 0x90 in
    let is64 = bit_and opcode 0x07 == 0x07 in
    when (is_div || is_mod) (
      emit_load_imm rcx (u16 pc)
      >> ((if is64 then emit_alu64 0x85 src src else emit_alu32 0x85 src src)
          >> emit_jcc 0x84 target_pc_div_by_zero))
    >> (when (not (dst == rax)) (emit_push rax)
        >> (when (not (dst == rdx)) (emit_push rdx)
            >> ((if not (imm == 0) then emit_load_imm rcx (sext32 imm) else emit_mov src rcx)
                >> (emit_mov dst rax
                    >> (when (is_div || is_mod) (emit_alu32 0x31 rdx rdx)
                        >> (when is64 (emit_rex 1 0 0 0)
                            >> (emit_alu32 0xf7 (if is_mul then 4 else 6) rcx
                                >> (when (not (dst == rdx))
                                      (when is_mod (emit_mov rdx dst) >> emit_pop rdx)
                                    >> when (not (dst == rax)) (
                                        when (is_div || is_mul) (emit_mov rax dst)
                                        >> emit_pop rax)))))))))

-- The 32-bit ALU cases.
unfoldable pub translate_alu : ℕ → Inst → ℕ → ℕ → AluOp → Source → Emit
unfolding emit_alu32_imm32 emit_alu32 emit_alu32_imm8 emit_mov muldivmod
translate_alu i inst src dst add src_imm = emit_alu32_imm32 0x81 0 dst inst.imm
translate_alu i inst src dst add src_reg = emit_alu32 0x01 src dst
translate_alu i inst src dst sub src_imm = emit_alu32_imm32 0x81 5 dst inst.imm
translate_alu i inst src dst sub src_reg = emit_alu32 0x29 src dst
translate_alu i inst src dst mul _ = muldivmod i inst.opcode src dst inst.imm
translate_alu i inst src dst div _ = muldivmod i inst.opcode src dst inst.imm
translate_alu i inst src dst modulo _ = muldivmod i inst.opcode src dst inst.imm
translate_alu i inst src dst or src_imm = emit_alu32_imm32 0x81 1 dst inst.imm
translate_alu i inst src dst or src_reg = emit_alu32 0x09 src dst
translate_alu i inst src dst and src_imm = emit_alu32_imm32 0x81 4 dst inst.imm
translate_alu i inst src dst and src_reg = emit_alu32 0x21 src dst
translate_alu i inst src dst lsh src_imm = emit_alu32_imm8 0xc1 4 dst inst.imm
translate_alu i inst src dst lsh src_reg = emit_mov src rcx >> emit_alu32 0xd3 4 dst
translate_alu i inst src dst rsh src_imm = emit_alu32_imm8 0xc1 5 dst inst.imm
translate_alu i inst src dst rsh src_reg = emit_mov src rcx >> emit_alu32 0xd3 5 dst
translate_alu i inst src dst xor src_imm = emit_alu32_imm32 0x81 6 dst inst.imm
translate_alu i inst src dst xor src_reg = emit_alu32 0x31 src dst
translate_alu i inst src dst mov src_imm = emit_alu32_imm32 0xc7 0 dst inst.imm
translate_alu i inst src dst mov src_reg = emit_mov src dst
translate_alu i inst src dst arsh src_imm = emit_alu32_imm8 0xc1 7 dst inst.imm
translate_alu i inst src dst arsh src_reg = emit_mov src rcx >> emit_alu32 0xd3 7 dst

-- The 64-bit ALU cases.
unfoldable pub translate_alu64 : ℕ → Inst → ℕ → ℕ → AluOp → Source → Emit
unfolding emit_alu64_imm32 emit_alu64 emit_alu64_imm8 emit_mov muldivmod emit_load_imm
translate_alu64 i inst src dst add src_imm = emit_alu64_imm32 0x81 0 dst inst.imm
translate_alu64 i inst src dst add src_reg = emit_alu64 0x01 src dst
translate_alu64 i inst src dst sub src_imm = emit_alu64_imm32 0x81 5 dst inst.imm
translate_alu64 i inst src dst sub src_reg = emit_alu64 0x29 src dst
translate_alu64 i inst src dst mul _ = muldivmod i inst.opcode src dst inst.imm
translate_alu64 i inst src dst div _ = muldivmod i inst.opcode src dst inst.imm
translate_alu64 i inst src dst modulo _ = muldivmod i inst.opcode src dst inst.imm
translate_alu64 i inst src dst or src_imm = emit_alu64_imm32 0x81 1 dst inst.imm
translate_alu64 i inst src dst or src_reg = emit_alu64 0x09 src dst
translate_alu64 i inst src dst and src_imm = emit_alu64_imm32 0x81 4 dst inst.imm
translate_alu64 i inst src dst and src_reg = emit_alu64 0x21 src dst
translate_alu64 i inst src dst lsh src_imm = emit_alu64_imm8 0xc1 4 dst inst.imm
translate_alu64 i inst src dst lsh src_reg = emit_mov src rcx >> emit_alu64 0xd3 4 dst
translate_alu64 i inst src dst rsh src_imm = emit_alu64_imm8 0xc1 5 dst inst.imm
translate_alu64 i inst src dst rsh src_reg = emit_mov src rcx >> emit_alu64 0xd3 5 dst
translate_alu64 i inst src dst xor src_imm = emit_alu64_imm32 0x81 6 dst inst.imm
translate_alu64 i inst src dst xor src_reg = emit_alu64 0x31 src dst
translate_alu64 i inst src dst mov src_imm = emit_load_imm dst (sext32 inst.imm)
translate_alu64 i inst src dst mov src_reg = emit_mov src dst
translate_alu64 i inst src dst arsh src_imm = emit_alu64_imm8 0xc1 7 dst inst.imm
translate_alu64 i inst src dst arsh src_reg = emit_mov src rcx >> emit_alu64 0xd3 7 dst
