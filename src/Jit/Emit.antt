-- ===== src/Jit/Emit.antt =====
-- The x86-64 instructions that tools/ubpf/vm/ubpf_jit_x86_64.h can write. Signed arguments are the
-- two's complement patterns of their types.
use ve_bpf.Base.{
  ℕ, ◌-◌, ◌*◌, ◌^◌, bit_and, bit_or, Bool, true, false, not, ◌&&◌, ◌||◌, ltb, leb, ◌==◌,
  if◌then◌else◌,
}
use ve_bpf.Jit.State.{Emit, ◌>>◌, when, assert, emit1, emit2, emit4, emit8, emit_jump_offset}

abbrev pub rax : ℕ
rax = 0

abbrev pub rcx : ℕ
rcx = 1

abbrev pub rdx : ℕ
rdx = 2

abbrev pub rbx : ℕ
rbx = 3

abbrev pub rsp : ℕ
rsp = 4

abbrev pub rbp : ℕ
rbp = 5

abbrev pub rsi : ℕ
rsi = 6

abbrev pub rdi : ℕ
rdi = 7

abbrev pub r8 : ℕ
r8 = 8

abbrev pub r9 : ℕ
r9 = 9

abbrev pub r13 : ℕ
r13 = 13

abbrev pub r14 : ℕ
r14 = 14

abbrev pub r15 : ℕ
r15 = 15

-- `enum operand_size`.
pub data OperandSize : Type 0 where
  s8 s16 s32 s64 : OperandSize

abbrev pub is_s8 : OperandSize → Bool
is_s8 s8 = true
is_s8 _ = false

abbrev pub is_s16 : OperandSize → Bool
is_s16 s16 = true
is_s16 _ = false

abbrev pub is_s64 : OperandSize → Bool
is_s64 s64 = true
is_s64 _ = false

-- A condition as the `int` 0 or 1, and `!!(r & 8)`.
abbrev pub bit : Bool → ℕ
bit true = 1
bit false = 0

abbrev pub top_bit : ℕ → Bool
top_bit r = not (bit_and r 8 == 0)

unfoldable pub emit_modrm : ℕ → ℕ → ℕ → Emit
unfolding emit1
emit_modrm md r m =
    assert (md == bit_and md 0xc0)
    >> emit1 (bit_or (bit_or (bit_and md 0xc0) (bit_and r 7 * 2 ^ 3)) (bit_and m 7))

unfoldable pub emit_modrm_reg2reg : ℕ → ℕ → Emit
unfolding emit_modrm
emit_modrm_reg2reg r m = emit_modrm 0xc0 r m

-- `d` is an `int32_t`.
unfoldable pub emit_modrm_and_displacement : ℕ → ℕ → ℕ → Emit
unfolding emit_modrm emit1 emit4
emit_modrm_and_displacement r m d =
    if d == 0 && not (bit_and m 7 == rbp)
    then emit_modrm 0x00 r m
    else (if leb (2 ^ 32 - 128) d || leb d 127
        then (emit_modrm 0x40 r m >> emit1 d)
        else (emit_modrm 0x80 r m >> emit4 d))

unfoldable pub emit_rex : ℕ → ℕ → ℕ → ℕ → Emit
unfolding emit1
emit_rex w r x b =
    assert (leb w 1)
    >> (assert (leb r 1)
        >> (assert (leb x 1)
            >> (assert (leb b 1)
                >> emit1
                    (bit_or (bit_or (bit_or (bit_or 0x40 (w * 2 ^ 3)) (r * 2 ^ 2)) (x * 2)) b))))

unfoldable pub emit_basic_rex : Bool → ℕ → ℕ → Emit
unfolding emit_rex
emit_basic_rex w src dst =
    when (w || (top_bit src || top_bit dst))
      (emit_rex (bit w) (bit (top_bit src)) 0 (bit (top_bit dst)))

unfoldable pub emit_push : ℕ → Emit
unfolding emit_basic_rex emit1
emit_push r = emit_basic_rex false 0 r >> emit1 (bit_or 0x50 (bit_and r 7))

unfoldable pub emit_pop : ℕ → Emit
unfolding emit_basic_rex emit1
emit_pop r = emit_basic_rex false 0 r >> emit1 (bit_or 0x58 (bit_and r 7))

unfoldable pub emit_alu32 : ℕ → ℕ → ℕ → Emit
unfolding emit_basic_rex emit1 emit_modrm_reg2reg
emit_alu32 op src dst = emit_basic_rex false src dst >> (emit1 op >> emit_modrm_reg2reg src dst)

unfoldable pub emit_alu32_imm32 : ℕ → ℕ → ℕ → ℕ → Emit
unfolding emit_alu32 emit4
emit_alu32_imm32 op src dst imm = emit_alu32 op src dst >> emit4 imm

unfoldable pub emit_alu32_imm8 : ℕ → ℕ → ℕ → ℕ → Emit
unfolding emit_alu32 emit1
emit_alu32_imm8 op src dst imm = emit_alu32 op src dst >> emit1 imm

unfoldable pub emit_alu64 : ℕ → ℕ → ℕ → Emit
unfolding emit_basic_rex emit1 emit_modrm_reg2reg
emit_alu64 op src dst = emit_basic_rex true src dst >> (emit1 op >> emit_modrm_reg2reg src dst)

unfoldable pub emit_alu64_imm32 : ℕ → ℕ → ℕ → ℕ → Emit
unfolding emit_alu64 emit4
emit_alu64_imm32 op src dst imm = emit_alu64 op src dst >> emit4 imm

unfoldable pub emit_alu64_imm8 : ℕ → ℕ → ℕ → ℕ → Emit
unfolding emit_alu64 emit1
emit_alu64_imm8 op src dst imm = emit_alu64 op src dst >> emit1 imm

unfoldable pub emit_mov : ℕ → ℕ → Emit
unfolding emit_alu64
emit_mov src dst = emit_alu64 0x89 src dst

unfoldable pub emit_cmp_imm32 : ℕ → ℕ → Emit
unfolding emit_alu64_imm32
emit_cmp_imm32 dst imm = emit_alu64_imm32 0x81 7 dst imm

unfoldable pub emit_cmp : ℕ → ℕ → Emit
unfolding emit_alu64
emit_cmp src dst = emit_alu64 0x39 src dst

unfoldable pub emit_jcc : ℕ → ℕ → Emit
unfolding emit1 emit_jump_offset
emit_jcc code target_pc = emit1 0x0f >> (emit1 code >> emit_jump_offset target_pc)

unfoldable pub emit_load_opcode : OperandSize → Emit
unfolding emit1
emit_load_opcode s8 = emit1 0x0f >> emit1 0xb6
emit_load_opcode s16 = emit1 0x0f >> emit1 0xb7
emit_load_opcode s32 = emit1 0x8b
emit_load_opcode s64 = emit1 0x8b

-- Load [src + offset] into dst.
unfoldable pub emit_load : OperandSize → ℕ → ℕ → ℕ → Emit
unfolding emit_basic_rex emit_load_opcode emit_modrm_and_displacement
emit_load size src dst offset =
    emit_basic_rex (is_s64 size) dst src
    >> (emit_load_opcode size >> emit_modrm_and_displacement dst src offset)

-- The immediate is an `int64_t`; its low half is written if it fits an `int32_t`.
unfoldable pub emit_load_imm : ℕ → ℕ → Emit
unfolding emit_alu64_imm32 emit_basic_rex emit1 emit8
emit_load_imm dst imm =
    if leb (2 ^ 64 - 2 ^ 31) imm || ltb imm (2 ^ 31)
    then emit_alu64_imm32 0xc7 0 dst imm
    else (emit_basic_rex true 0 dst >> (emit1 (bit_or 0xb8 (bit_and dst 7)) >> emit8 imm))

-- Store register src to [dst + offset].
unfoldable pub emit_store : OperandSize → ℕ → ℕ → ℕ → Emit
unfolding emit1 emit_rex emit_modrm_and_displacement
emit_store size src dst offset =
    when (is_s16 size) (emit1 0x66)
    >> (when (is_s64 size || (top_bit src || (top_bit dst || is_s8 size)))
          (emit_rex (bit (is_s64 size)) (bit (top_bit src)) 0 (bit (top_bit dst)))
        >> (emit1 (if is_s8 size then 0x88 else 0x89)
            >> emit_modrm_and_displacement src dst offset))

unfoldable pub emit_store_imm : OperandSize → ℕ → Emit
unfolding emit1 emit2 emit4
emit_store_imm s8 imm = emit1 imm
emit_store_imm s16 imm = emit2 imm
emit_store_imm s32 imm = emit4 imm
emit_store_imm s64 imm = emit4 imm

-- Store the immediate to [dst + offset].
unfoldable pub emit_store_imm32 : OperandSize → ℕ → ℕ → ℕ → Emit
unfolding emit1 emit_basic_rex emit_modrm_and_displacement emit_store_imm
emit_store_imm32 size dst offset imm =
    when (is_s16 size) (emit1 0x66)
    >> (emit_basic_rex (is_s64 size) 0 dst
        >> (emit1 (if is_s8 size then 0xc6 else 0xc7)
            >> (emit_modrm_and_displacement 0 dst offset >> emit_store_imm size imm)))

unfoldable pub emit_call : ℕ → Emit
unfolding emit_load_imm emit1
emit_call target = emit_load_imm rax target >> (emit1 0xff >> emit1 0xd0)

unfoldable pub emit_jmp : ℕ → Emit
unfolding emit1 emit_jump_offset
emit_jmp target_pc = emit1 0xe9 >> emit_jump_offset target_pc
