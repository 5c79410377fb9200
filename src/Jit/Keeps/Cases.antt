-- ===== src/Jit/Keeps/Cases.antt =====
-- About what each case of the `switch` of `translate`
-- (tools/ubpf/vm/ubpf_jit_x86_64.c) writes to the buffer.
use ve_bpf.Base.{◌+◌, ◌≡◌, true, refl, false, ℕ, Option, none, some, List}
use ve_bpf.Ebpf.{Inst}
use ve_bpf.Ebpf.Opcode.{
  Source, src_imm, src_reg, AluOp, add, sub, mul, div, or, and, lsh, rsh, modulo, xor, mov, arsh,
  Cond, jeq, jgt, jge, jset, jne, jsgt, jsge, jlt, jle, jslt, jsle, Opcode, alu, alu64, neg, neg64,
  le, be, lddw, ja, call, exit, ldx, stx, jump, decode,
}
use ve_bpf.Vm.State.{Vm}
use ve_bpf.Base.Word.{u32, sext16}
use ve_bpf.Vm.Exec.Flow.{is_jump}
use ve_bpf.Jit.Translate.{
  target_pc_exit, target_pc_div_by_zero, muldivmod, translate_alu, translate_alu64, emit_compare,
  emit_be, emit_lddw, translate_opcode, unknown, Host, translate_mapped, emit_prologue, emit_return,
  emit_epilogue, emit_report, emit_div_by_zero, set_exit_loc, set_div_by_zero_loc,
}
use ve_bpf.Jit.State.{Jit}
use ve_bpf.Jit.Keeps.{IsKept, Keeps, Keeps->>, Keeps-if, Keeps-when, Keeps-assert, Keeps-skip}
use ve_bpf.Jit.Keeps.Emitters.{
  emit1-Keeps, emit_rex-Keeps, emit_basic_rex-Keeps, emit_push-Keeps, emit_pop-Keeps,
  emit_alu32-Keeps, emit_alu32_imm32-Keeps, emit_alu32_imm8-Keeps, emit_alu64-Keeps,
  emit_alu64_imm32-Keeps, emit_alu64_imm8-Keeps, emit_mov-Keeps, emit_cmp_imm32-Keeps,
  emit_cmp-Keeps, emit_jcc-Keeps, emit_load-Keeps, emit_load_imm-Keeps, emit_store-Keeps,
  emit_store_imm32-Keeps, emit_call-Keeps, emit_jmp-Keeps,
}

pub ruleset emitters = (
  Keeps->>, Keeps-if, Keeps-when, Keeps-skip, emit1-Keeps, emit_rex-Keeps, emit_basic_rex-Keeps,
  emit_push-Keeps, emit_pop-Keeps, emit_alu32-Keeps, emit_alu32_imm32-Keeps, emit_alu32_imm8-Keeps,
  emit_alu64-Keeps, emit_alu64_imm32-Keeps, emit_alu64_imm8-Keeps, emit_mov-Keeps,
  emit_cmp_imm32-Keeps, emit_cmp-Keeps, emit_jcc-Keeps, emit_load-Keeps, emit_load_imm-Keeps,
  emit_store-Keeps, emit_store_imm32-Keeps, emit_call-Keeps, emit_jmp-Keeps,
)

muldivmod-Keeps :
    {R : Jit → Jit → Type 0} {P : ℕ → Type 0}
    → IsKept R P
    → P (u32 target_pc_div_by_zero)
    → (pc opcode src dst imm : ℕ) → Keeps R (muldivmod pc opcode src dst imm)
unfolding muldivmod
muldivmod-Keeps kept d pc opcode src dst imm = search (emitters) depth 40 fits 5000

translate_alu-Keeps :
    {R : Jit → Jit → Type 0} {P : ℕ → Type 0}
    → IsKept R P
    → P (u32 target_pc_div_by_zero)
    → (i : ℕ) (inst : Inst) (src dst : ℕ) (op : AluOp) (s : Source)
    → Keeps R (translate_alu i inst src dst op s)
unfolding translate_alu
translate_alu-Keeps kept d i inst src dst add src_imm = search (emitters)
translate_alu-Keeps kept d i inst src dst add src_reg = search (emitters)
translate_alu-Keeps kept d i inst src dst sub src_imm = search (emitters)
translate_alu-Keeps kept d i inst src dst sub src_reg = search (emitters)
translate_alu-Keeps kept d i inst src dst mul _ =
    muldivmod-Keeps kept d i inst.opcode src dst inst.imm
translate_alu-Keeps kept d i inst src dst div _ =
    muldivmod-Keeps kept d i inst.opcode src dst inst.imm
translate_alu-Keeps kept d i inst src dst or src_imm = search (emitters)
translate_alu-Keeps kept d i inst src dst or src_reg = search (emitters)
translate_alu-Keeps kept d i inst src dst and src_imm = search (emitters)
translate_alu-Keeps kept d i inst src dst and src_reg = search (emitters)
translate_alu-Keeps kept d i inst src dst lsh src_imm = search (emitters)
translate_alu-Keeps kept d i inst src dst lsh src_reg = search (emitters)
translate_alu-Keeps kept d i inst src dst rsh src_imm = search (emitters)
translate_alu-Keeps kept d i inst src dst rsh src_reg = search (emitters)
translate_alu-Keeps kept d i inst src dst modulo _ =
    muldivmod-Keeps kept d i inst.opcode src dst inst.imm
translate_alu-Keeps kept d i inst src dst xor src_imm = search (emitters)
translate_alu-Keeps kept d i inst src dst xor src_reg = search (emitters)
translate_alu-Keeps kept d i inst src dst mov src_imm = search (emitters)
translate_alu-Keeps kept d i inst src dst mov src_reg = search (emitters)
translate_alu-Keeps kept d i inst src dst arsh src_imm = search (emitters)
translate_alu-Keeps kept d i inst src dst arsh src_reg = search (emitters)

translate_alu64-Keeps :
    {R : Jit → Jit → Type 0} {P : ℕ → Type 0}
    → IsKept R P
    → P (u32 target_pc_div_by_zero)
    → (i : ℕ) (inst : Inst) (src dst : ℕ) (op : AluOp) (s : Source)
    → Keeps R (translate_alu64 i inst src dst op s)
unfolding translate_alu64
translate_alu64-Keeps kept d i inst src dst add src_imm = search (emitters)
translate_alu64-Keeps kept d i inst src dst add src_reg = search (emitters)
translate_alu64-Keeps kept d i inst src dst sub src_imm = search (emitters)
translate_alu64-Keeps kept d i inst src dst sub src_reg = search (emitters)
translate_alu64-Keeps kept d i inst src dst mul _ =
    muldivmod-Keeps kept d i inst.opcode src dst inst.imm
translate_alu64-Keeps kept d i inst src dst div _ =
    muldivmod-Keeps kept d i inst.opcode src dst inst.imm
translate_alu64-Keeps kept d i inst src dst or src_imm = search (emitters)
translate_alu64-Keeps kept d i inst src dst or src_reg = search (emitters)
translate_alu64-Keeps kept d i inst src dst and src_imm = search (emitters)
translate_alu64-Keeps kept d i inst src dst and src_reg = search (emitters)
translate_alu64-Keeps kept d i inst src dst lsh src_imm = search (emitters)
translate_alu64-Keeps kept d i inst src dst lsh src_reg = search (emitters)
translate_alu64-Keeps kept d i inst src dst rsh src_imm = search (emitters)
translate_alu64-Keeps kept d i inst src dst rsh src_reg = search (emitters)
translate_alu64-Keeps kept d i inst src dst modulo _ =
    muldivmod-Keeps kept d i inst.opcode src dst inst.imm
translate_alu64-Keeps kept d i inst src dst xor src_imm = search (emitters)
translate_alu64-Keeps kept d i inst src dst xor src_reg = search (emitters)
translate_alu64-Keeps kept d i inst src dst mov src_imm = search (emitters)
translate_alu64-Keeps kept d i inst src dst mov src_reg = search (emitters)
translate_alu64-Keeps kept d i inst src dst arsh src_imm = search (emitters)
translate_alu64-Keeps kept d i inst src dst arsh src_reg = search (emitters)

emit_compare-Keeps :
    {R : Jit → Jit → Type 0} {P : ℕ → Type 0}
    → IsKept R P
    → (k : Cond) (s : Source) (inst : Inst) (src dst : ℕ) → Keeps R (emit_compare k s inst src dst)
unfolding emit_compare
emit_compare-Keeps kept jeq src_imm inst src dst = search (emitters)
emit_compare-Keeps kept jeq src_reg inst src dst = search (emitters)
emit_compare-Keeps kept jgt src_imm inst src dst = search (emitters)
emit_compare-Keeps kept jgt src_reg inst src dst = search (emitters)
emit_compare-Keeps kept jge src_imm inst src dst = search (emitters)
emit_compare-Keeps kept jge src_reg inst src dst = search (emitters)
emit_compare-Keeps kept jset src_imm inst src dst = search (emitters)
emit_compare-Keeps kept jset src_reg inst src dst = search (emitters)
emit_compare-Keeps kept jne src_imm inst src dst = search (emitters)
emit_compare-Keeps kept jne src_reg inst src dst = search (emitters)
emit_compare-Keeps kept jsgt src_imm inst src dst = search (emitters)
emit_compare-Keeps kept jsgt src_reg inst src dst = search (emitters)
emit_compare-Keeps kept jsge src_imm inst src dst = search (emitters)
emit_compare-Keeps kept jsge src_reg inst src dst = search (emitters)
emit_compare-Keeps kept jlt src_imm inst src dst = search (emitters)
emit_compare-Keeps kept jlt src_reg inst src dst = search (emitters)
emit_compare-Keeps kept jle src_imm inst src dst = search (emitters)
emit_compare-Keeps kept jle src_reg inst src dst = search (emitters)
emit_compare-Keeps kept jslt src_imm inst src dst = search (emitters)
emit_compare-Keeps kept jslt src_reg inst src dst = search (emitters)
emit_compare-Keeps kept jsle src_imm inst src dst = search (emitters)
emit_compare-Keeps kept jsle src_reg inst src dst = search (emitters)

emit_be-Keeps :
    {R : Jit → Jit → Type 0} {P : ℕ → Type 0}
    → IsKept R P
    → (imm dst : ℕ) → Keeps R (emit_be imm dst)
unfolding emit_be
emit_be-Keeps kept imm dst = search (emitters)

emit_lddw-Keeps :
    {R : Jit → Jit → Type 0} {P : ℕ → Type 0}
    → IsKept R P
    → (inst : Inst) (dst : ℕ) (second : Option Inst) → Keeps R (emit_lddw inst dst second)
unfolding emit_lddw
emit_lddw-Keeps kept inst dst none = search (Keeps-assert)
emit_lddw-Keeps kept inst dst (some second) = search (emitters)

unknown-Keeps :
    {R : Jit → Jit → Type 0} {P : ℕ → Type 0} → IsKept R P → (i : ℕ) → Keeps R (unknown i)
unknown-Keeps kept i = record { keeps = λ s s' e. absurd (cc) }

ruleset cases = (
  emitters, Keeps-assert, muldivmod-Keeps, translate_alu-Keeps, translate_alu64-Keeps,
  emit_compare-Keeps, emit_be-Keeps, emit_lddw-Keeps, unknown-Keeps,
)

pub translate_opcode-Keeps :
    {R : Jit → Jit → Type 0} {P : ℕ → Type 0}
    → IsKept R P
    → P (u32 target_pc_div_by_zero)
    → P (u32 target_pc_exit)
    → (vm : Vm) (insts : List Inst) (i : ℕ) (inst : Inst) (src dst : ℕ) (op : Option Opcode)
    → (is_jump op ≡ true → P (u32 (i + sext16 inst.offset + 1)))
    → Keeps R (translate_opcode vm insts i inst src dst op)
unfolding translate_opcode
translate_opcode-Keeps kept d e vm insts i inst src dst none j = search (cases)
translate_opcode-Keeps kept d e vm insts i inst src dst (some (alu op s)) j = search (cases)
translate_opcode-Keeps kept d e vm insts i inst src dst (some (alu64 op s)) j = search (cases)
translate_opcode-Keeps kept d e vm insts i inst src dst (some neg) j = search (cases)
translate_opcode-Keeps kept d e vm insts i inst src dst (some neg64) j = search (cases)
translate_opcode-Keeps kept d e vm insts i inst src dst (some le) j = search (cases)
translate_opcode-Keeps kept d e vm insts i inst src dst (some be) j = search (cases)
translate_opcode-Keeps kept d e vm insts i inst src dst (some ja) j =
    let allowed = j refl in search (cases)
translate_opcode-Keeps kept d e vm insts i inst src dst (some (jump k s)) j =
    let allowed = j refl in search (cases)
translate_opcode-Keeps kept d e vm insts i inst src dst (some call) j = search (cases)
translate_opcode-Keeps kept d e vm insts i inst src dst (some exit) j = search (cases)
translate_opcode-Keeps kept d e vm insts i inst src dst (some (ldx z)) j = search (cases)
translate_opcode-Keeps kept d e vm insts i inst src dst (some (Opcode.st z)) j = search (cases)
translate_opcode-Keeps kept d e vm insts i inst src dst (some (stx z)) j = search (cases)
translate_opcode-Keeps kept d e vm insts i inst src dst (some lddw) j = search (cases)

pub translate_mapped-Keeps :
    {R : Jit → Jit → Type 0} {P : ℕ → Type 0}
    → IsKept R P
    → P (u32 target_pc_div_by_zero)
    → P (u32 target_pc_exit)
    → (vm : Vm) (insts : List Inst) (i : ℕ) (inst : Inst) (dst src : Option ℕ)
    → (is_jump (decode inst.opcode) ≡ true → P (u32 (i + sext16 inst.offset + 1)))
    → Keeps R (translate_mapped vm insts i inst dst src)
translate_mapped-Keeps kept d e vm insts i inst (some dst) (some src) j =
    translate_opcode-Keeps kept d e vm insts i inst src dst (decode inst.opcode) j
translate_mapped-Keeps kept d e vm insts i inst none src j = Keeps-assert false kept
translate_mapped-Keeps kept d e vm insts i inst (some dst) none j = Keeps-assert false kept

pub emit_prologue-Keeps :
    {R : Jit → Jit → Type 0} {P : ℕ → Type 0}
    → IsKept R P
    → (host : Host) → Keeps R (emit_prologue host)
unfolding emit_prologue
emit_prologue-Keeps kept host = search (emitters) depth 12

pub emit_return-Keeps :
    {R : Jit → Jit → Type 0} {P : ℕ → Type 0}
    → IsKept R P
    → (host : Host) → Keeps R (emit_return host)
unfolding emit_return
emit_return-Keeps kept host = search (emitters) depth 12

pub emit_epilogue-Keeps :
    {R : Jit → Jit → Type 0} {P : ℕ → Type 0}
    → IsKept R P
    → Keeps R set_exit_loc
    → (host : Host) → Keeps R (emit_epilogue host)
unfolding emit_epilogue
emit_epilogue-Keeps kept first host = Keeps->> kept first (emit_return-Keeps kept host)

pub emit_report-Keeps :
    {R : Jit → Jit → Type 0} {P : ℕ → Type 0}
    → IsKept R P
    → P (u32 target_pc_exit)
    → (host : Host) → Keeps R (emit_report host)
unfolding emit_report
emit_report-Keeps kept e host = search (emitters) depth 12

pub emit_div_by_zero-Keeps :
    {R : Jit → Jit → Type 0} {P : ℕ → Type 0}
    → IsKept R P
    → P (u32 target_pc_exit)
    → Keeps R set_div_by_zero_loc
    → (host : Host) → Keeps R (emit_div_by_zero host)
unfolding emit_div_by_zero
emit_div_by_zero-Keeps kept e first host = Keeps->> kept first (emit_report-Keeps kept e host)
