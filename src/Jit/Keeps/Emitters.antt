-- ===== src/Jit/Keeps/Emitters.antt =====
-- About what each function of tools/ubpf/vm/ubpf_jit_x86_64.h writes to the buffer.
use ve_bpf.Base.{ℕ, Bool}
use ve_bpf.Base.Word.{u32}
use ve_bpf.Jit.State.{emit1, emit2, emit4, emit8}
use ve_bpf.Ebpf.Encoding.{to_bytes}
use ve_bpf.Jit.Emit.{
  OperandSize, s8, s16, s32, s64, emit_modrm, emit_modrm_reg2reg, emit_modrm_and_displacement,
  emit_rex, emit_basic_rex, emit_push, emit_pop, emit_alu32, emit_alu32_imm32, emit_alu32_imm8,
  emit_alu64, emit_alu64_imm32, emit_alu64_imm8, emit_mov, emit_cmp_imm32, emit_cmp, emit_jcc,
  emit_load_opcode, emit_load, emit_load_imm, emit_store, emit_store_imm, emit_store_imm32,
  emit_call, emit_jmp,
}
use ve_bpf.Jit.State.{Jit}
use ve_bpf.Jit.Keeps.{
  IsKept, Keeps, Keeps->>, Keeps-if, Keeps-when, Keeps-assert, Keeps-bytes, Keeps-jump,
}

ruleset joins = (Keeps->>, Keeps-if, Keeps-when, Keeps-assert, Keeps-jump)

pub emit1-Keeps :
    {R : Jit → Jit → Type 0} {P : ℕ → Type 0} → IsKept R P → (x : ℕ) → Keeps R (emit1 x)
unfolding emit1
emit1-Keeps kept x = Keeps-bytes (to_bytes 1 x) kept

pub emit2-Keeps :
    {R : Jit → Jit → Type 0} {P : ℕ → Type 0} → IsKept R P → (x : ℕ) → Keeps R (emit2 x)
unfolding emit2
emit2-Keeps kept x = Keeps-bytes (to_bytes 2 x) kept

pub emit4-Keeps :
    {R : Jit → Jit → Type 0} {P : ℕ → Type 0} → IsKept R P → (x : ℕ) → Keeps R (emit4 x)
unfolding emit4
emit4-Keeps kept x = Keeps-bytes (to_bytes 4 x) kept

pub emit8-Keeps :
    {R : Jit → Jit → Type 0} {P : ℕ → Type 0} → IsKept R P → (x : ℕ) → Keeps R (emit8 x)
unfolding emit8
emit8-Keeps kept x = Keeps-bytes (to_bytes 8 x) kept

ruleset bytes = (joins, emit1-Keeps, emit2-Keeps, emit4-Keeps, emit8-Keeps)

pub emit_modrm-Keeps :
    {R : Jit → Jit → Type 0} {P : ℕ → Type 0}
    → IsKept R P
    → (md r m : ℕ) → Keeps R (emit_modrm md r m)
unfolding emit_modrm
emit_modrm-Keeps kept md r m = search (bytes)

pub emit_modrm_reg2reg-Keeps :
    {R : Jit → Jit → Type 0} {P : ℕ → Type 0}
    → IsKept R P
    → (r m : ℕ) → Keeps R (emit_modrm_reg2reg r m)
unfolding emit_modrm_reg2reg
emit_modrm_reg2reg-Keeps kept r m = search (bytes, emit_modrm-Keeps)

pub emit_modrm_and_displacement-Keeps :
    {R : Jit → Jit → Type 0} {P : ℕ → Type 0}
    → IsKept R P
    → (r m d : ℕ) → Keeps R (emit_modrm_and_displacement r m d)
unfolding emit_modrm_and_displacement
emit_modrm_and_displacement-Keeps kept r m d = search (bytes, emit_modrm-Keeps)

pub emit_rex-Keeps :
    {R : Jit → Jit → Type 0} {P : ℕ → Type 0}
    → IsKept R P
    → (w r x b : ℕ) → Keeps R (emit_rex w r x b)
unfolding emit_rex
emit_rex-Keeps kept w r x b = search (bytes)

pub emit_basic_rex-Keeps :
    {R : Jit → Jit → Type 0} {P : ℕ → Type 0}
    → IsKept R P
    → (w : Bool) (src dst : ℕ) → Keeps R (emit_basic_rex w src dst)
unfolding emit_basic_rex
emit_basic_rex-Keeps kept w src dst = search (bytes, emit_rex-Keeps)

pub emit_push-Keeps :
    {R : Jit → Jit → Type 0} {P : ℕ → Type 0} → IsKept R P → (r : ℕ) → Keeps R (emit_push r)
unfolding emit_push
emit_push-Keeps kept r = search (bytes, emit_basic_rex-Keeps)

pub emit_pop-Keeps :
    {R : Jit → Jit → Type 0} {P : ℕ → Type 0} → IsKept R P → (r : ℕ) → Keeps R (emit_pop r)
unfolding emit_pop
emit_pop-Keeps kept r = search (bytes, emit_basic_rex-Keeps)

pub emit_alu32-Keeps :
    {R : Jit → Jit → Type 0} {P : ℕ → Type 0}
    → IsKept R P
    → (op src dst : ℕ) → Keeps R (emit_alu32 op src dst)
unfolding emit_alu32
emit_alu32-Keeps kept op src dst = search (bytes, emit_modrm-Keeps, emit_basic_rex-Keeps)

pub emit_alu32_imm32-Keeps :
    {R : Jit → Jit → Type 0} {P : ℕ → Type 0}
    → IsKept R P
    → (op src dst imm : ℕ) → Keeps R (emit_alu32_imm32 op src dst imm)
unfolding emit_alu32_imm32
emit_alu32_imm32-Keeps kept op src dst imm = search (bytes, emit_alu32-Keeps)

pub emit_alu32_imm8-Keeps :
    {R : Jit → Jit → Type 0} {P : ℕ → Type 0}
    → IsKept R P
    → (op src dst imm : ℕ) → Keeps R (emit_alu32_imm8 op src dst imm)
unfolding emit_alu32_imm8
emit_alu32_imm8-Keeps kept op src dst imm = search (bytes, emit_alu32-Keeps)

pub emit_alu64-Keeps :
    {R : Jit → Jit → Type 0} {P : ℕ → Type 0}
    → IsKept R P
    → (op src dst : ℕ) → Keeps R (emit_alu64 op src dst)
unfolding emit_alu64
emit_alu64-Keeps kept op src dst = search (bytes, emit_modrm-Keeps, emit_basic_rex-Keeps)

pub emit_alu64_imm32-Keeps :
    {R : Jit → Jit → Type 0} {P : ℕ → Type 0}
    → IsKept R P
    → (op src dst imm : ℕ) → Keeps R (emit_alu64_imm32 op src dst imm)
unfolding emit_alu64_imm32
emit_alu64_imm32-Keeps kept op src dst imm = search (bytes, emit_alu64-Keeps)

pub emit_alu64_imm8-Keeps :
    {R : Jit → Jit → Type 0} {P : ℕ → Type 0}
    → IsKept R P
    → (op src dst imm : ℕ) → Keeps R (emit_alu64_imm8 op src dst imm)
unfolding emit_alu64_imm8
emit_alu64_imm8-Keeps kept op src dst imm = search (bytes, emit_alu64-Keeps)

pub emit_mov-Keeps :
    {R : Jit → Jit → Type 0} {P : ℕ → Type 0}
    → IsKept R P
    → (src dst : ℕ) → Keeps R (emit_mov src dst)
unfolding emit_mov
emit_mov-Keeps kept src dst = search (bytes, emit_alu64-Keeps)

pub emit_cmp_imm32-Keeps :
    {R : Jit → Jit → Type 0} {P : ℕ → Type 0}
    → IsKept R P
    → (dst imm : ℕ) → Keeps R (emit_cmp_imm32 dst imm)
unfolding emit_cmp_imm32
emit_cmp_imm32-Keeps kept dst imm = search (bytes, emit_alu64_imm32-Keeps)

pub emit_cmp-Keeps :
    {R : Jit → Jit → Type 0} {P : ℕ → Type 0}
    → IsKept R P
    → (src dst : ℕ) → Keeps R (emit_cmp src dst)
unfolding emit_cmp
emit_cmp-Keeps kept src dst = search (bytes, emit_alu64-Keeps)

pub emit_jcc-Keeps :
    {R : Jit → Jit → Type 0} {P : ℕ → Type 0}
    → IsKept R P
    → (code target_pc : ℕ) → P (u32 target_pc)
    → Keeps R (emit_jcc code target_pc)
unfolding emit_jcc
emit_jcc-Keeps kept code target_pc allowed = search (bytes)

pub emit_load_opcode-Keeps :
    {R : Jit → Jit → Type 0} {P : ℕ → Type 0}
    → IsKept R P
    → (size : OperandSize) → Keeps R (emit_load_opcode size)
unfolding emit_load_opcode
emit_load_opcode-Keeps kept s8 = search (bytes)
emit_load_opcode-Keeps kept s16 = search (bytes)
emit_load_opcode-Keeps kept s32 = search (bytes)
emit_load_opcode-Keeps kept s64 = search (bytes)

pub emit_load-Keeps :
    {R : Jit → Jit → Type 0} {P : ℕ → Type 0}
    → IsKept R P
    → (size : OperandSize) (src dst offset : ℕ) → Keeps R (emit_load size src dst offset)
unfolding emit_load
emit_load-Keeps kept size src dst offset =
    search (bytes, emit_modrm_and_displacement-Keeps, emit_basic_rex-Keeps, emit_load_opcode-Keeps)

pub emit_load_imm-Keeps :
    {R : Jit → Jit → Type 0} {P : ℕ → Type 0}
    → IsKept R P
    → (dst imm : ℕ) → Keeps R (emit_load_imm dst imm)
unfolding emit_load_imm
emit_load_imm-Keeps kept dst imm = search (bytes, emit_basic_rex-Keeps, emit_alu64_imm32-Keeps)

pub emit_store-Keeps :
    {R : Jit → Jit → Type 0} {P : ℕ → Type 0}
    → IsKept R P
    → (size : OperandSize) (src dst offset : ℕ) → Keeps R (emit_store size src dst offset)
unfolding emit_store
emit_store-Keeps kept size src dst offset =
    search (bytes, emit_modrm_and_displacement-Keeps, emit_rex-Keeps)

pub emit_store_imm-Keeps :
    {R : Jit → Jit → Type 0} {P : ℕ → Type 0}
    → IsKept R P
    → (size : OperandSize) (imm : ℕ) → Keeps R (emit_store_imm size imm)
unfolding emit_store_imm
emit_store_imm-Keeps kept s8 imm = search (bytes)
emit_store_imm-Keeps kept s16 imm = search (bytes)
emit_store_imm-Keeps kept s32 imm = search (bytes)
emit_store_imm-Keeps kept s64 imm = search (bytes)

pub emit_store_imm32-Keeps :
    {R : Jit → Jit → Type 0} {P : ℕ → Type 0}
    → IsKept R P
    → (size : OperandSize) (dst offset imm : ℕ) → Keeps R (emit_store_imm32 size dst offset imm)
unfolding emit_store_imm32
emit_store_imm32-Keeps kept size dst offset imm =
    search (bytes, emit_modrm_and_displacement-Keeps, emit_basic_rex-Keeps, emit_store_imm-Keeps)

pub emit_call-Keeps :
    {R : Jit → Jit → Type 0} {P : ℕ → Type 0}
    → IsKept R P
    → (target : ℕ) → Keeps R (emit_call target)
unfolding emit_call
emit_call-Keeps kept target = search (bytes, emit_load_imm-Keeps)

pub emit_jmp-Keeps :
    {R : Jit → Jit → Type 0} {P : ℕ → Type 0}
    → IsKept R P
    → (target_pc : ℕ) → P (u32 target_pc)
    → Keeps R (emit_jmp target_pc)
unfolding emit_jmp
emit_jmp-Keeps kept target_pc allowed = search (bytes)
