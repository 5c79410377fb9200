-- ===== src/X86/Reads.antt =====
-- About the format of the instructions that the functions of tools/ubpf/vm/ubpf_jit_x86_64.h write.
use mathlib.Core.List.{append_assoc}
use ve_bpf.Base.{
  ℕ, ◌+◌, ◌*◌, ◌/◌, ◌%◌, ◌^◌, ◌<◌, ◌≡◌, refl, ap, ◌∙◌, Bool, true, false, ◌||◌, some, List, [], ◌∷◌,
  ◌++◌, leb, ◌==◌, arith,
}
use ve_bpf.Ebpf.Encoding.{to_bytes}
use ve_bpf.Ebpf.Encoding.RoundTrip.{of_bytes-to_bytes}
use ve_bpf.Jit.Writes.{rex_bytes, modrm_byte, alu_bytes}
use ve_bpf.X86.Format.{
  Width, w32, w64, Rex, Read, Instr, imm32, imm8, imm64, modrm, opcode, read, load_64, load_imm,
  swap,
}

abbrev pub width : Bool → Width
width true = w64
width false = w32

abbrev pub rex_of : Bool → ℕ → ℕ → Rex
rex_of w src dst = record { w = width w; r = src / 8; b = dst / 8 }

-- The prefix with these bits.
abbrev rex_with : Width → ℕ → ℕ → Rex
rex_with w r b = record { w = w; r = r; b = b }

module _ (w : Bool) (src dst : ℕ) (a : src < 16) (b : dst < 16) where
  prefix_bits :
      (n : ℕ)
      → n < 2
      → ((0x40 + 8 * n + 4 * (src / 8) + dst / 8) / 16 ≡ 4)
        × (((0x40 + 8 * n + 4 * (src / 8) + dst / 8) / 8 % 2 ≡ n)
            × (((0x40 + 8 * n + 4 * (src / 8) + dst / 8) / 4 % 2 ≡ src / 8)
                × ((0x40 + 8 * n + 4 * (src / 8) + dst / 8) % 2 ≡ dst / 8)))
  prefix_bits n h = (omega arith, (omega arith, (omega arith, omega arith)))

  modrm_lem :
      (rest : List ℕ) (k : ℕ → ℕ → List ℕ → Read)
      → modrm (rex_of w src dst) (modrm_byte src dst ∷ rest) k ≡ k src dst rest
  modrm_lem rest k =
      let top : (modrm_byte src dst / 64) ≡ 3 = omega arith in
      let reg : 8 * (src / 8) + modrm_byte src dst / 8 % 8 ≡ src = omega arith in
      let rm : 8 * (dst / 8) + modrm_byte src dst % 8 ≡ dst = omega arith in rw (top, reg, rm) refl

read-long :
    (src dst op : ℕ) (rest : List ℕ)
    → src < 16
    → dst < 16
    → read (rex_bytes true src dst ++ op ∷ rest) ≡ opcode (rex_of true src dst) (op ∷ rest)
unfolding read
read-long src dst op rest a b =
    let p = prefix_bits true src dst a b 1 (omega arith) in rw (p.0, p.1.0, p.1.1.0, p.1.1.1) refl

read-short :
    (src dst op : ℕ) (rest : List ℕ) (wide : Bool)
    → (leb 8 src || leb 8 dst) ≡ wide
    → src < 16
    → dst < 16
    → (op / 16 == 4) ≡ false
    → read (rex_bytes false src dst ++ op ∷ rest) ≡ opcode (rex_of false src dst) (op ∷ rest)
unfolding read
read-short src dst op rest true e a b h =
    let p = prefix_bits false src dst a b 0 (omega arith) in
    rw (e, p.0, p.1.0, p.1.1.0, p.1.1.1) refl
read-short src dst op rest false e a b h =
    let s : src / 8 ≡ 0 = ground arith in let d : dst / 8 ≡ 0 = ground arith in rw (e, s, d, h) refl

read-rex :
    (w : Bool) (src dst op : ℕ) (rest : List ℕ)
    → src < 16
    → dst < 16
    → (op / 16 == 4) ≡ false
    → read (rex_bytes w src dst ++ op ∷ rest) ≡ opcode (rex_of w src dst) (op ∷ rest)
read-rex true src dst op rest a b h = read-long src dst op rest a b
read-rex false src dst op rest a b h =
    read-short src dst op rest (leb 8 src || leb 8 dst) refl a b h

-- The bytes are those of one instruction.
pub record Encodes (bytes : List ℕ) (i : Instr) : Type 0 where
  pub reads : (rest : List ℕ) → read (bytes ++ rest) ≡ some (i, rest)

module _ (w : Bool) (src dst : ℕ) (a : src < 16) (b : dst < 16) where
  pub read-alu :
      (op : ℕ) (more : List ℕ) (k : ℕ → ℕ → List ℕ → Read)
      → (op % 256 / 16 == 4) ≡ false
      → ((m : ℕ) (rest : List ℕ)
          → opcode (rex_of w src dst) (op % 256 ∷ m ∷ rest) ≡ modrm (rex_of w src dst) (m ∷ rest) k)
      → read (alu_bytes w op src dst ++ more) ≡ k src dst more
  read-alu op more k h f =
      let bytes = append_assoc (rex_bytes w src dst) (op % 256 ∷ modrm_byte src dst ∷ []) more in
      ap read bytes
      ∙ read-rex w src dst (op % 256) (modrm_byte src dst ∷ more) a b h
      ∙ f (modrm_byte src dst) more
      ∙ modrm_lem w src dst a b more k

  -- Two registers.
  pub Encodes-alu :
      (op : ℕ)
      → (op % 256 / 16 == 4) ≡ false
      → (k : ℕ → ℕ → Instr)
      → ((m : ℕ) (rest : List ℕ)
          → opcode (rex_of w src dst) (op % 256 ∷ m ∷ rest)
            ≡ modrm (rex_of w src dst) (m ∷ rest) (λ reg rm more. some (k reg rm, more)))
      → Encodes (alu_bytes w op src dst) (k src dst)
  Encodes-alu op h k f = record {
    reads = λ rest. read-alu op rest (λ reg rm more. some (k reg rm, more)) h f;
  }

pub imm32-to_bytes :
    (x : ℕ) (rest : List ℕ) (k : ℕ → Instr)
    → imm32 (to_bytes 4 x ++ rest) k ≡ some (k (x % 2 ^ 32), rest)
unfolding to_bytes
imm32-to_bytes x rest k = ap (λ (y : ℕ). some (k y, rest)) (of_bytes-to_bytes 4 x)

imm64-to_bytes :
    (x : ℕ) (rest : List ℕ) (k : ℕ → Instr)
    → imm64 (to_bytes 8 x ++ rest) k ≡ some (k (x % 2 ^ 64), rest)
unfolding to_bytes
imm64-to_bytes x rest k = ap (λ (y : ℕ). some (k y, rest)) (of_bytes-to_bytes 8 x)

module _ (w : Bool) (digit dst : ℕ) (a : digit < 16) (b : dst < 16) (op : ℕ) where
  -- A register and an immediate of 32 or of 8 bits.
  pub Encodes-imm32 :
      (imm : ℕ) (k : ℕ → ℕ → List ℕ → Read) (i : ℕ → Instr)
      → (op % 256 / 16 == 4) ≡ false
      → ((m : ℕ) (rest : List ℕ)
          → opcode (rex_of w digit dst) (op % 256 ∷ m ∷ rest)
            ≡ modrm (rex_of w digit dst) (m ∷ rest) k)
      → ((more : List ℕ) → k digit dst more ≡ imm32 more i)
      → Encodes (alu_bytes w op digit dst ++ to_bytes 4 imm) (i (imm % 2 ^ 32))
  Encodes-imm32 imm k i h f g = record {
    reads = λ rest.
        ap read (append_assoc (alu_bytes w op digit dst) (to_bytes 4 imm) rest)
        ∙ read-alu w digit dst a b op (to_bytes 4 imm ++ rest) k h f
        ∙ g (to_bytes 4 imm ++ rest)
        ∙ imm32-to_bytes imm rest i;
  }

  pub Encodes-imm8 :
      (imm : ℕ) (k : ℕ → ℕ → List ℕ → Read) (i : ℕ → Instr)
      → (op % 256 / 16 == 4) ≡ false
      → ((m : ℕ) (rest : List ℕ)
          → opcode (rex_of w digit dst) (op % 256 ∷ m ∷ rest)
            ≡ modrm (rex_of w digit dst) (m ∷ rest) k)
      → ((more : List ℕ) → k digit dst more ≡ imm8 more i)
      → Encodes (alu_bytes w op digit dst ++ (imm % 256) ∷ []) (i (imm % 256))
  Encodes-imm8 imm k i h f g = record {
    reads = λ rest.
        ap read (append_assoc (alu_bytes w op digit dst) ((imm % 256) ∷ []) rest)
        ∙ read-alu w digit dst a b op (imm % 256 ∷ rest) k h f
        ∙ g (imm % 256 ∷ rest);
  }

opcode_load :
    (w : Bool) (r b : ℕ) (rest : List ℕ)
    → r < 8
    → opcode (rex_of w 0 b) ((0xb8 + r) ∷ rest) ≡ load_64 (rex_of w 0 b) (0xb8 + r) rest
unfolding opcode
opcode_load w r b rest h = ground arith

-- A register and an immediate of 64 bits.
pub Encodes-load_imm :
    (dst imm : ℕ)
    → dst < 16
    → imm < 2 ^ 64
    → Encodes (rex_bytes true 0 dst ++ (0xb8 + dst % 8) ∷ to_bytes 8 imm) (load_imm dst imm)
Encodes-load_imm dst imm a h = record {
  reads = λ rest.
      let register : 8 * (dst / 8) + (0xb8 + dst % 8) % 8 ≡ dst = omega arith in
      let same : imm % 2 ^ 64 ≡ imm = omega arith in
      ap read (append_assoc (rex_bytes true 0 dst) ((0xb8 + dst % 8) ∷ to_bytes 8 imm) rest)
      ∙ read-rex true 0 dst (0xb8 + dst % 8) (to_bytes 8 imm ++ rest) (omega arith) a (ground arith)
      ∙ opcode_load true (dst % 8) dst (to_bytes 8 imm ++ rest) (omega arith)
      ∙ imm64-to_bytes imm rest (load_imm (8 * (dst / 8) + (0xb8 + dst % 8) % 8))
      ∙ rw (register, same) refl;
}

-- A byte swap.
pub Encodes-swap :
    (w : Bool) (dst : ℕ)
    → dst < 16
    → Encodes (rex_bytes w 0 dst ++ 0x0f ∷ (0xc8 + dst % 8) ∷ []) (swap (width w) dst)
unfolding opcode
Encodes-swap w dst a = record {
  reads = λ rest.
      let register : 8 * (dst / 8) + (0xc8 + dst % 8) % 8 ≡ dst = omega arith in
      let high : (0xc8 + dst % 8) / 16 ≡ 12 = omega arith in
      let low : (0xc8 + dst % 8) / 8 ≡ 25 = omega arith in
      ap read (append_assoc (rex_bytes w 0 dst) (0x0f ∷ (0xc8 + dst % 8) ∷ []) rest)
      ∙ read-rex w 0 dst 0x0f ((0xc8 + dst % 8) ∷ rest) (omega arith) a refl
      ∙ rw (high, low, register) refl;
}
