-- ===== src/Jit/Translate.antt =====
-- `translate` and `muldivmod` (tools/ubpf/vm/ubpf_jit_x86_64.c).
mod Alu
unfoldable pub use Alu.{
  target_pc_exit, target_pc_div_by_zero, muldivmod, translate_alu, translate_alu64,
}
use ve_bpf.Base.{
  ℕ, ◌+◌, ◌-◌, ◌*◌, ◌%◌, ◌^◌, bit_and, bit_or, Bool, true, false, not, ◌||◌, Option, none, some,
  List, [], ◌∷◌, ltb, ◌==◌, if◌then◌else◌, length, get_elem?,
}
use ve_bpf.Base.Word.{u16, u32, u64, sext16, sext32, uint64_max}
use ve_bpf.Ebpf.{Inst}
use ve_bpf.Ebpf.Opcode.{
  Source, src_imm, src_reg, Size, size_w, size_h, size_b, size_dw, AluOp, add, sub, mul, div, or,
  and, lsh, rsh, modulo, xor, mov, arsh, Cond, jeq, jgt, jge, jset, jne, jsgt, jsge, jlt, jle, jslt,
  jsle, Opcode, alu, alu64, neg, neg64, le, be, lddw, ja, call, exit, ldx, stx, jump, decode,
}
use ve_bpf.Vm.State.{Vm, ExtFunc, stack_size}
use ve_bpf.Vm.Memory.{update}
use ve_bpf.Vm.Validate.{is_lddw}
use ve_bpf.Jit.State.{offset, emitted, unknown_instruction, Emit, ◌>>◌, when, skip, assert, emit1}
use ve_bpf.Jit.Emit.{
  rax, rcx, rdx, rbx, rsp, rbp, rsi, rdi, r9, r13, r14, r15, OperandSize, s8, s16, s32, s64,
  emit_basic_rex, emit_rex, emit_push, emit_pop, emit_alu32, emit_alu32_imm32, emit_alu32_imm8,
  emit_alu64, emit_alu64_imm32, emit_alu64_imm8, emit_mov, emit_cmp_imm32, emit_cmp, emit_jcc,
  emit_load, emit_load_imm, emit_store, emit_store_imm32, emit_call, emit_jmp,
}

-- `map_register` on the array `register_map`; its `assert` fails on r11 to r15.
unfoldable pub map_register : (ℕ → ℕ) → ℕ → Option ℕ
map_register register_map r = if ltb r 11 then some (register_map (r % 11)) else none

-- What `translate` reads of the host process: the map of the registers, and the addresses that the code
-- refers to.
pub record Host : Type 0 where
  pub register_map : ℕ → ℕ
  pub stderr_address : ℕ
  pub fprintf_address : ℕ
  pub format_address : ℕ

-- The second byte of the conditional jump.
unfoldable pub jcc_code : Cond → ℕ
jcc_code jeq = 0x84
jcc_code jgt = 0x87
jcc_code jge = 0x83
jcc_code jlt = 0x82
jcc_code jle = 0x86
jcc_code jset = 0x85
jcc_code jne = 0x85
jcc_code jsgt = 0x8f
jcc_code jsge = 0x8d
jcc_code jslt = 0x8c
jcc_code jsle = 0x8e

-- The instruction that sets the flags for the jump.
unfoldable pub emit_compare : Cond → Source → Inst → ℕ → ℕ → Emit
unfolding emit_alu64_imm32 emit_alu64 emit_cmp_imm32 emit_cmp
emit_compare jset src_imm inst src dst = emit_alu64_imm32 0xf7 0 dst inst.imm
emit_compare jset src_reg inst src dst = emit_alu64 0x85 src dst
emit_compare _ src_imm inst src dst = emit_cmp_imm32 dst inst.imm
emit_compare _ src_reg inst src dst = emit_cmp src dst

abbrev operand_size : Size → OperandSize
operand_size size_w = s32
operand_size size_h = s16
operand_size size_b = s8
operand_size size_dw = s64

abbrev function_address : Option ExtFunc → ℕ
function_address none = 0
function_address (some fn) = fn.address

unfoldable pub emit_be : ℕ → ℕ → Emit
unfolding emit1 emit_alu32_imm8 emit_alu32_imm32 emit_basic_rex
emit_be imm dst =
    if imm == 16
    then (emit1 0x66 >> (emit_alu32_imm8 0xc1 0 dst 8 >> emit_alu32_imm32 0x81 4 dst 0xffff))
    else when (imm == 32 || imm == 64)
        (emit_basic_rex (imm == 64) 0 dst >> (emit1 0x0f >> emit1 (bit_or 0xc8 (bit_and dst 7))))

-- The `error` of the `default` case.
abbrev pub unknown : ℕ → Emit
unknown i state = unknown_instruction i

-- Without an instruction behind it the source reads beyond the array; the model aborts.
unfoldable pub emit_lddw : Inst → ℕ → Option Inst → Emit
unfolding emit_load_imm
emit_lddw inst dst none = assert false
emit_lddw inst dst (some second) = emit_load_imm dst (bit_or inst.imm (u64 (second.imm * 2 ^ 32)))

-- The `switch` at the instruction `inst` with index `i`, given the x86 registers `src` and `dst`.
unfoldable pub translate_opcode : Vm → List Inst → ℕ → Inst → ℕ → ℕ → Option Opcode → Emit
unfolding translate_alu translate_alu64 emit_be emit_lddw emit_compare jcc_code emit_alu32
    emit_alu64
translate_opcode vm insts i inst src dst none = unknown i
translate_opcode vm insts i inst src dst (some (alu op s)) = translate_alu i inst src dst op s
translate_opcode vm insts i inst src dst (some (alu64 op s)) = translate_alu64 i inst src dst op s
translate_opcode vm insts i inst src dst (some neg) = emit_alu32 0xf7 3 dst
translate_opcode vm insts i inst src dst (some neg64) = emit_alu64 0xf7 3 dst
translate_opcode vm insts i inst src dst (some le) = skip
translate_opcode vm insts i inst src dst (some be) = emit_be inst.imm dst
translate_opcode vm insts i inst src dst (some ja) = emit_jmp (i + sext16 inst.offset + 1)
translate_opcode vm insts i inst src dst (some (jump k s)) =
    emit_compare k s inst src dst >> emit_jcc (jcc_code k) (i + sext16 inst.offset + 1)
translate_opcode vm insts i inst src dst (some call) =
    emit_mov r9 rcx >> emit_call (function_address (vm.ext_funcs inst.imm))
translate_opcode vm insts i inst src dst (some exit) =
    when (not (i + 1 == length insts)) (emit_jmp target_pc_exit)
translate_opcode vm insts i inst src dst (some (ldx z)) =
    emit_load (operand_size z) src dst (u32 (sext16 inst.offset))
translate_opcode vm insts i inst src dst (some (Opcode.st z)) =
    emit_store_imm32 (operand_size z) dst (u32 (sext16 inst.offset)) inst.imm
translate_opcode vm insts i inst src dst (some (stx z)) =
    emit_store (operand_size z) src dst (u32 (sext16 inst.offset))
translate_opcode vm insts i inst src dst (some lddw) = emit_lddw inst dst (get_elem? insts (i + 1))

-- One round of the loop; a failed `assert` of `map_register` aborts.
abbrev pub set_pc_loc : ℕ → Emit
set_pc_loc i state = emitted (record state { pc_locs = update state.pc_locs i (offset state) })

abbrev pub translate_mapped : Vm → List Inst → ℕ → Inst → Option ℕ → Option ℕ → Emit
translate_mapped vm insts i inst (some dst) (some src) =
    translate_opcode vm insts i inst src dst (decode inst.opcode)
translate_mapped vm insts i inst _ _ = assert false

unfoldable pub translate_inst : Host → Vm → List Inst → ℕ → Inst → Emit
unfolding translate_opcode map_register
translate_inst host vm insts i inst =
    set_pc_loc i
    >> translate_mapped vm insts i inst (map_register host.register_map inst.dst)
        (map_register host.register_map inst.src)

-- The loop from index `i`; under `skips`, `++i` has passed over the second slot of an `lddw`.
unfoldable pub translate_from : Host → Vm → List Inst → Bool → ℕ → List Inst → Emit
translate_from host vm insts skips i [] = skip
translate_from host vm insts true i (inst ∷ rest) = translate_from host vm insts false (i + 1) rest
translate_from host vm insts false i (inst ∷ rest) =
    translate_inst host vm insts i inst
    >> translate_from host vm insts (is_lddw (decode inst.opcode)) (i + 1) rest

-- `map_register` of 0, 1 and 10, where its `assert` holds.
unfoldable pub emit_prologue : Host → Emit
unfolding emit_push emit_mov emit_alu64_imm32
emit_prologue host =
    emit_push rbp
    >> (emit_push rbx
        >> (emit_push r13
            >> (emit_push r14
                >> (emit_push r15
                    >> (when (not (host.register_map 1 == rdi)) (emit_mov rdi (host.register_map 1))
                        >> (emit_mov rsp (host.register_map 10)
                            >> emit_alu64_imm32 0x81 5 rsp stack_size))))))

abbrev pub set_exit_loc : Emit
set_exit_loc state = emitted (record state { exit_loc = offset state })

abbrev pub set_div_by_zero_loc : Emit
set_div_by_zero_loc state = emitted (record state { div_by_zero_loc = offset state })

-- The epilogue behind the location of the exit.
unfoldable pub emit_return : Host → Emit
unfolding emit_mov emit_alu64_imm32 emit_pop emit1
emit_return host =
    when (not (host.register_map 0 == rax)) (emit_mov (host.register_map 0) rax)
    >> (emit_alu64_imm32 0x81 0 rsp stack_size
        >> (emit_pop r15
            >> (emit_pop r14 >> (emit_pop r13 >> (emit_pop rbx >> (emit_pop rbp >> emit1 0xc3))))))

unfoldable pub emit_epilogue : Host → Emit
unfolding emit_return
emit_epilogue host = set_exit_loc >> emit_return host

-- The handler of a division by zero, behind its location.
unfoldable pub emit_report : Host → Emit
unfolding emit_load_imm emit_mov emit_call emit_jmp
emit_report host =
    emit_load_imm rdi host.stderr_address
    >> (emit_load_imm rsi host.format_address
        >> (emit_mov rcx rdx
            >> (emit_call host.fprintf_address
                >> (emit_load_imm (host.register_map 0) uint64_max >> emit_jmp target_pc_exit))))

unfoldable pub emit_div_by_zero : Host → Emit
unfolding emit_report
emit_div_by_zero host = set_div_by_zero_loc >> emit_report host

unfoldable pub translate : Host → Vm → List Inst → Emit
unfolding emit_prologue translate_from translate_inst emit_epilogue emit_div_by_zero
translate host vm insts =
    emit_prologue host
    >> (translate_from host vm insts false 0 insts >> (emit_epilogue host >> emit_div_by_zero host))
