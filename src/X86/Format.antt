-- ===== src/X86/Format.antt =====
-- The instructions of x86-64 that the compiler in tools/ubpf/vm writes for registers and jumps, and their
-- format: a REX prefix, an opcode, a ModRM byte for registers, and an immediate.
use ve_bpf.Base.{ℕ, ◌+◌, ◌-◌, ◌*◌, ◌/◌, ◌%◌, Option, none, some, List, [], ◌∷◌, ◌==◌, if◌then◌else◌}
use ve_bpf.Ebpf.Encoding.{of_bytes}

pub data Width : Type 0 where
  w32 w64 : Width

pub data Binary : Type 0 where
  add or and sub xor cmp : Binary

pub data Shift : Type 0 where
  shl shr sar : Shift

-- The registers are numbered; `rm` is the one that is changed.
pub data Instr : Type 0 where
  binary : Width → Binary → ℕ → ℕ → Instr  -- op rm, reg
  binary_imm : Width → Binary → ℕ → ℕ → Instr  -- op rm, imm32
  test : Width → ℕ → ℕ → Instr
  test_imm : Width → ℕ → ℕ → Instr
  shift_imm : Width → Shift → ℕ → ℕ → Instr
  shift_cl : Width → Shift → ℕ → Instr
  move : Width → ℕ → ℕ → Instr  -- mov rm, reg
  move_imm : Width → ℕ → ℕ → Instr
  load_imm : ℕ → ℕ → Instr  -- mov reg, imm64
  negate : Width → ℕ → Instr
  swap : Width → ℕ → Instr
  jump_if : ℕ → ℕ → Instr  -- the condition's number, rel32
  jump : ℕ → Instr

-- The bits of the REX prefix: the width, and the top bits of the two register numbers.
pub record Rex : Type 0 where
  pub w : Width
  pub r : ℕ
  pub b : ℕ

abbrev pub Read : Type 0
Read = Option (Instr × List ℕ)

-- A little-endian immediate.
abbrev pub imm32 : List ℕ → (ℕ → Instr) → Read
imm32 (a ∷ b ∷ c ∷ d ∷ rest) k = some (k (of_bytes (a ∷ b ∷ c ∷ d ∷ [])), rest)
imm32 _ k = none

abbrev pub imm8 : List ℕ → (ℕ → Instr) → Read
imm8 (a ∷ rest) k = some (k a, rest)
imm8 _ k = none

abbrev pub imm64 : List ℕ → (ℕ → Instr) → Read
imm64 (a ∷ b ∷ c ∷ d ∷ e ∷ f ∷ g ∷ h ∷ rest) k =
    some (k (of_bytes (a ∷ b ∷ c ∷ d ∷ e ∷ f ∷ g ∷ h ∷ [])), rest)
imm64 _ k = none

-- The ModRM byte with two registers; one with an address in memory is not described.
abbrev pub modrm : Rex → List ℕ → (ℕ → ℕ → List ℕ → Read) → Read
modrm rex [] k = none
modrm rex (m ∷ rest) k =
    if m / 64 == 3 then k (8 * rex.r + m / 8 % 8) (8 * rex.b + m % 8) rest else none

-- The operation that the digit in the ModRM byte selects.
abbrev pub binary_digit : ℕ → Option Binary
binary_digit n =
    if n == 0
    then some add
    else (if n == 1
        then some or
        else (if n == 4
            then some and
            else (if n == 5
                then some sub
                else (if n == 6 then some xor else (if n == 7 then some cmp else none)))))

abbrev pub shift_digit : ℕ → Option Shift
shift_digit n =
    if n == 4 then some shl else (if n == 5 then some shr else (if n == 7 then some sar else none))

abbrev pub unary_digit : Width → ℕ → ℕ → List ℕ → Read
unary_digit w rm n rest =
    if n == 3
    then some (negate w rm, rest)
    else (if n == 0 then imm32 rest (test_imm w rm) else none)

abbrev pub with_binary : Option Binary → (Binary → Read) → Read
with_binary none k = none
with_binary (some op) k = k op

abbrev pub with_shift : Option Shift → (Shift → Read) → Read
with_shift none k = none
with_shift (some op) k = k op

-- The digit is the register number without its top bit.
abbrev pub digit : Rex → ℕ → ℕ
digit rex reg = reg - 8 * rex.r

-- The instructions whose operation is a digit: the opcodes 0x81, 0xc1, 0xd3, 0xf7 and 0xc7.
abbrev pub with_imm32 : Rex → ℕ → ℕ → List ℕ → Read
with_imm32 rex reg rm more =
    with_binary (binary_digit (digit rex reg)) (λ o. imm32 more (binary_imm rex.w o rm))

abbrev pub with_imm8 : Rex → ℕ → ℕ → List ℕ → Read
with_imm8 rex reg rm more =
    with_shift (shift_digit (digit rex reg)) (λ o. imm8 more (shift_imm rex.w o rm))

abbrev pub with_cl : Rex → ℕ → ℕ → List ℕ → Read
with_cl rex reg rm more =
    with_shift (shift_digit (digit rex reg)) (λ o. some (shift_cl rex.w o rm, more))

abbrev pub unary : Rex → ℕ → ℕ → List ℕ → Read
unary rex reg rm more = unary_digit rex.w rm (digit rex reg) more

abbrev pub moved : Rex → ℕ → ℕ → List ℕ → Read
moved rex reg rm more = if digit rex reg == 0 then imm32 more (move_imm rex.w rm) else none

abbrev pub two_bytes : Rex → List ℕ → Read
two_bytes rex [] = none
two_bytes rex (op ∷ rest) =
    if op / 16 == 8
    then imm32 rest (jump_if (op % 16))
    else (if op / 8 == 25 then some (swap rex.w (8 * rex.b + op % 8), rest) else none)

abbrev pub load_64 : Rex → ℕ → List ℕ → Read
load_64 rex op rest = elim rex.w [ w32 ↦ none | w64 ↦ imm64 rest (load_imm (8 * rex.b + op % 8)) ]

-- The opcode and what follows it.
unfoldable pub opcode : Rex → List ℕ → Read
opcode rex [] = none
opcode rex (op ∷ rest) =
    if op == 0x01
    then modrm rex rest (λ reg rm more. some (binary rex.w add rm reg, more))
    else (if op == 0x09
        then modrm rex rest (λ reg rm more. some (binary rex.w or rm reg, more))
        else (if op == 0x21
            then modrm rex rest (λ reg rm more. some (binary rex.w and rm reg, more))
            else (if op == 0x29
                then modrm rex rest (λ reg rm more. some (binary rex.w sub rm reg, more))
                else (if op == 0x31
                    then modrm rex rest (λ reg rm more. some (binary rex.w xor rm reg, more))
                    else (if op == 0x39
                        then modrm rex rest (λ reg rm more. some (binary rex.w cmp rm reg, more))
                        else (if op == 0x85
                            then modrm rex rest (λ reg rm more. some (test rex.w rm reg, more))
                            else (if op == 0x89
                                then modrm rex rest (λ reg rm more. some (move rex.w rm reg, more))
                                else (if op == 0x81
                                    then modrm rex rest (with_imm32 rex)
                                    else (if op == 0xc1
                                        then modrm rex rest (with_imm8 rex)
                                        else (if op == 0xd3
                                            then modrm rex rest (with_cl rex)
                                            else (if op == 0xf7
                                                then modrm rex rest (unary rex)
                                                else (if op == 0xc7
                                                    then modrm rex rest (moved rex)
                                                    else (if op == 0x0f
                                                        then two_bytes rex rest
                                                        else (if op == 0xe9
                                                            then imm32 rest jump
                                                            else (if op / 8 == 23
                                                            then load_64 rex op rest
                                                            else none)))))))))))))))

abbrev pub width_of : ℕ → Width
width_of bit = if bit == 0 then w32 else w64

-- An instruction, and the bytes behind it.
unfoldable pub read : List ℕ → Read
read [] = none
read (b ∷ rest) =
    if b / 16 == 4
    then opcode (record { w = width_of (b / 8 % 2); r = b / 4 % 2; b = b % 2 }) rest
    else opcode (record { w = w32; r = 0; b = 0 }) (b ∷ rest)
