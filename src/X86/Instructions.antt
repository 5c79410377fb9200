-- ===== src/X86/Instructions.antt =====
-- What the code of the functions of tools/ubpf/vm/ubpf_jit_x86_64.h for two registers, and for a register
-- and an immediate, does on the processor.
use ve_bpf.Base.{ℕ, ◌%◌, ◌^◌, ◌<◌, ◌≡◌, refl, ◌∙◌, Bool, some, List, [], ◌∷◌, ◌++◌, arith}
use ve_bpf.Ebpf.Encoding.{to_bytes}
use ve_bpf.Jit.Writes.{alu_bytes}
use ve_bpf.X86.Format.{
  Binary, add, or, and, sub, xor, cmp, Shift, shl, shr, sar, binary, binary_imm, shift_imm,
  shift_cl, move, move_imm, negate, opcode, with_imm32, with_imm8, with_cl, unary, moved, imm32,
  imm8,
}
use ve_bpf.X86.Reads.{width, rex_of, Encodes, read-alu, Encodes-alu, Encodes-imm32, Encodes-imm8}

-- The opcode with two registers, and the digit of the opcode with an immediate.
abbrev pub code : Binary → ℕ
code add = 0x01
code or = 0x09
code and = 0x21
code sub = 0x29
code xor = 0x31
code cmp = 0x39

abbrev pub digit_of : Binary → ℕ
digit_of add = 0
digit_of or = 1
digit_of and = 4
digit_of sub = 5
digit_of xor = 6
digit_of cmp = 7

abbrev pub shift_digit_of : Shift → ℕ
shift_digit_of shl = 4
shift_digit_of shr = 5
shift_digit_of sar = 7

module _ (w : Bool) (src dst : ℕ) (a : src < 16) (b : dst < 16) where
  pub Encodes-binary :
      (o : Binary) → Encodes (alu_bytes w (code o) src dst) (binary (width w) o dst src)
  unfolding opcode
  Encodes-binary add =
      Encodes-alu w src dst a b 0x01 refl (λ reg rm. binary (width w) add rm reg) (λ m rest. refl)
  Encodes-binary or =
      Encodes-alu w src dst a b 0x09 refl (λ reg rm. binary (width w) or rm reg) (λ m rest. refl)
  Encodes-binary and =
      Encodes-alu w src dst a b 0x21 refl (λ reg rm. binary (width w) and rm reg) (λ m rest. refl)
  Encodes-binary sub =
      Encodes-alu w src dst a b 0x29 refl (λ reg rm. binary (width w) sub rm reg) (λ m rest. refl)
  Encodes-binary xor =
      Encodes-alu w src dst a b 0x31 refl (λ reg rm. binary (width w) xor rm reg) (λ m rest. refl)
  Encodes-binary cmp =
      Encodes-alu w src dst a b 0x39 refl (λ reg rm. binary (width w) cmp rm reg) (λ m rest. refl)

  pub Encodes-move : Encodes (alu_bytes w 0x89 src dst) (move (width w) dst src)
  unfolding opcode
  Encodes-move =
      Encodes-alu w src dst a b 0x89 refl (λ reg rm. move (width w) rm reg) (λ m rest. refl)

module _ (w : Bool) (dst : ℕ) (b : dst < 16) where
  binary_imm_at :
      (o : Binary) (imm : ℕ)
      → digit_of o < 16
      → ((more : List ℕ)
          → with_imm32 (rex_of w (digit_of o) dst) (digit_of o) dst more
            ≡ imm32 more (binary_imm (width w) o dst))
      → Encodes
          (alu_bytes w 0x81 (digit_of o) dst ++ to_bytes 4 imm)
          (binary_imm (width w) o dst (imm % 2 ^ 32))
  unfolding opcode
  binary_imm_at o imm h f =
      Encodes-imm32 w (digit_of o) dst h b 0x81 imm (with_imm32 (rex_of w (digit_of o) dst))
        (binary_imm (width w) o dst) refl (λ m rest. refl) f

  pub Encodes-binary_imm :
      (o : Binary) (imm : ℕ)
      → Encodes
          (alu_bytes w 0x81 (digit_of o) dst ++ to_bytes 4 imm)
          (binary_imm (width w) o dst (imm % 2 ^ 32))
  Encodes-binary_imm add imm = binary_imm_at add imm (omega arith) (λ more. refl)
  Encodes-binary_imm or imm = binary_imm_at or imm (omega arith) (λ more. refl)
  Encodes-binary_imm and imm = binary_imm_at and imm (omega arith) (λ more. refl)
  Encodes-binary_imm sub imm = binary_imm_at sub imm (omega arith) (λ more. refl)
  Encodes-binary_imm xor imm = binary_imm_at xor imm (omega arith) (λ more. refl)
  Encodes-binary_imm cmp imm = binary_imm_at cmp imm (omega arith) (λ more. refl)

  shift_imm_at :
      (o : Shift) (imm : ℕ)
      → shift_digit_of o < 16
      → ((more : List ℕ)
          → with_imm8 (rex_of w (shift_digit_of o) dst) (shift_digit_of o) dst more
            ≡ imm8 more (shift_imm (width w) o dst))
      → Encodes
          (alu_bytes w 0xc1 (shift_digit_of o) dst ++ (imm % 256) ∷ [])
          (shift_imm (width w) o dst (imm % 256))
  unfolding opcode
  shift_imm_at o imm h f =
      Encodes-imm8 w (shift_digit_of o) dst h b 0xc1 imm
        (with_imm8 (rex_of w (shift_digit_of o) dst)) (shift_imm (width w) o dst) refl
        (λ m rest. refl) f

  pub Encodes-shift_imm :
      (o : Shift) (imm : ℕ)
      → Encodes
          (alu_bytes w 0xc1 (shift_digit_of o) dst ++ (imm % 256) ∷ [])
          (shift_imm (width w) o dst (imm % 256))
  Encodes-shift_imm shl imm = shift_imm_at shl imm (omega arith) (λ more. refl)
  Encodes-shift_imm shr imm = shift_imm_at shr imm (omega arith) (λ more. refl)
  Encodes-shift_imm sar imm = shift_imm_at sar imm (omega arith) (λ more. refl)

  shift_cl_at :
      (o : Shift)
      → shift_digit_of o < 16
      → ((more : List ℕ)
          → with_cl (rex_of w (shift_digit_of o) dst) (shift_digit_of o) dst more
            ≡ some (shift_cl (width w) o dst, more))
      → Encodes (alu_bytes w 0xd3 (shift_digit_of o) dst) (shift_cl (width w) o dst)
  unfolding opcode
  shift_cl_at o h f = record {
    reads = λ rest.
        read-alu w (shift_digit_of o) dst h b 0xd3 rest (with_cl (rex_of w (shift_digit_of o) dst))
          refl (λ m more. refl)
        ∙ f rest;
  }

  pub Encodes-shift_cl :
      (o : Shift) → Encodes (alu_bytes w 0xd3 (shift_digit_of o) dst) (shift_cl (width w) o dst)
  Encodes-shift_cl shl = shift_cl_at shl (omega arith) (λ more. refl)
  Encodes-shift_cl shr = shift_cl_at shr (omega arith) (λ more. refl)
  Encodes-shift_cl sar = shift_cl_at sar (omega arith) (λ more. refl)

  pub Encodes-negate : Encodes (alu_bytes w 0xf7 3 dst) (negate (width w) dst)
  unfolding opcode
  Encodes-negate = record {
    reads = λ rest.
        read-alu w 3 dst (omega arith) b 0xf7 rest (unary (rex_of w 3 dst)) refl (λ m more. refl);
  }

  pub Encodes-move_imm :
      (imm : ℕ)
      → Encodes (alu_bytes w 0xc7 0 dst ++ to_bytes 4 imm) (move_imm (width w) dst (imm % 2 ^ 32))
  unfolding opcode
  Encodes-move_imm imm =
      Encodes-imm32 w 0 dst (omega arith) b 0xc7 imm (moved (rex_of w 0 dst))
        (move_imm (width w) dst) refl (λ m rest. refl) (λ more. refl)
