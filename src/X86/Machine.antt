-- ===== src/X86/Machine.antt =====
-- What the instructions of x86-64 do to the registers. Flags that are not compared are not described.
use mathlib.Core.List.{reverse}
use ve_bpf.Base.{
  ℕ, ◌+◌, ◌-◌, ◌*◌, ◌/◌, ◌%◌, ◌^◌, ◌≡◌, bit_and, bit_or, bit_xor, Bool, true, false, not, Option,
  none, some, List, ltb, leb, ◌==◌, if◌then◌else◌,
}
use ve_bpf.Base.Word.{sext32}
use ve_bpf.Ebpf.Encoding.{to_bytes, of_bytes}
use ve_bpf.Vm.Memory.{update}
use ve_bpf.X86.Format.{
  Width, w32, w64, Binary, add, or, and, sub, xor, cmp, Shift, shl, shr, sar, Instr, binary,
  binary_imm, test, test_imm, shift_imm, shift_cl, move, move_imm, load_imm, negate, swap, jump_if,
  jump, read,
}

-- ZF, CF, and whether SF and OF differ, after a comparison.
pub record Flags : Type 0 where
  pub zero_flag : Bool
  pub carry : Bool
  pub less : Bool

pub record Machine : Type 0 where
  pub reg : ℕ → ℕ
  pub flags : Option Flags

abbrev pub modulus : Width → ℕ
modulus w32 = 2 ^ 32
modulus w64 = 2 ^ 64

-- The shift count is taken from its low 5 or 6 bits.
abbrev pub count : Width → ℕ → ℕ
count w32 n = n % 32
count w64 n = n % 64

-- A 32-bit immediate is extended with its sign to 64 bits.
abbrev pub extended : Width → ℕ → ℕ
extended w32 imm = imm
extended w64 imm = sext32 imm

abbrev pub bytes_of : Width → ℕ
bytes_of w32 = 4
bytes_of w64 = 8

-- The comparison does not change its operand.
unfoldable pub binary_value : Width → Binary → ℕ → ℕ → ℕ
binary_value w add a b = (a + b) % modulus w
binary_value w or a b = bit_or a b
binary_value w and a b = bit_and a b
binary_value w sub a b = (a + modulus w - b) % modulus w
binary_value w xor a b = bit_xor a b
binary_value w cmp a b = a

unfoldable pub shift_value : Width → Shift → ℕ → ℕ → ℕ
shift_value w shl a n = (a * 2 ^ n) % modulus w
shift_value w shr a n = a / 2 ^ n
shift_value w sar a n =
    if ltb a (modulus w / 2) then a / 2 ^ n else modulus w - 1 - (modulus w - 1 - a) / 2 ^ n

abbrev pub is_negative : Width → ℕ → Bool
is_negative w a = leb (modulus w / 2) a

-- Whether `a` is less than `b` as signed numbers.
abbrev pub signed_less : Width → ℕ → ℕ → Bool
signed_less w a b = ltb ((a + modulus w / 2) % modulus w) ((b + modulus w / 2) % modulus w)

unfoldable pub binary_flags : Width → Binary → ℕ → ℕ → Option Flags
binary_flags w cmp a b =
    some (record { zero_flag = a == b; carry = ltb a b; less = signed_less w a b })
binary_flags w _ a b = none

unfoldable pub test_flags : Width → ℕ → ℕ → Option Flags
test_flags w a b =
    some
      (record { zero_flag = bit_and a b == 0; carry = false; less = is_negative w (bit_and a b) })

-- A register read with a width. A result of 32 bits clears the upper half.
abbrev pub at : Width → Machine → ℕ → ℕ
at w m r = m.reg r % modulus w

abbrev pub with_reg : Machine → ℕ → ℕ → Option Flags → Machine
with_reg m r v flags = record { reg = update m.reg r v; flags = flags }

-- The comparison writes no register.
abbrev pub binary_result : Width → Binary → Machine → ℕ → ℕ → Machine
binary_result w cmp m rm b = record m { flags = binary_flags w cmp (at w m rm) b }
binary_result w op m rm b =
    with_reg m rm (binary_value w op (at w m rm) b) (binary_flags w op (at w m rm) b)

-- An instruction that is no jump.
unfoldable pub execute : Instr → Machine → Option Machine
unfolding binary_value shift_value binary_flags test_flags
execute (binary w op rm reg) m = some (binary_result w op m rm (at w m reg))
execute (binary_imm w op rm imm) m = some (binary_result w op m rm (extended w imm))
execute (test w rm reg) m = some (record m { flags = test_flags w (at w m rm) (at w m reg) })
execute (test_imm w rm imm) m =
    some (record m { flags = test_flags w (at w m rm) (extended w imm) })
execute (shift_imm w op rm imm) m =
    some (with_reg m rm (shift_value w op (at w m rm) (count w imm)) none)
execute (shift_cl w op rm) m =
    some (with_reg m rm (shift_value w op (at w m rm) (count w (m.reg 1))) none)
execute (move w rm reg) m = some (with_reg m rm (at w m reg) m.flags)
execute (move_imm w rm imm) m = some (with_reg m rm (extended w imm) m.flags)
execute (load_imm reg imm) m = some (with_reg m reg imm m.flags)
execute (negate w rm) m = some (with_reg m rm ((modulus w - at w m rm) % modulus w) none)
execute (swap w rm) m =
    some (with_reg m rm (of_bytes (reverse (to_bytes (bytes_of w) (m.reg rm)))) m.flags)
execute (jump_if cc rel) m = none
execute (jump rel) m = none

-- Whether a conditional jump is taken, by the number of its condition.
unfoldable pub taken : ℕ → Flags → Bool
taken cc f =
    if cc == 2
    then f.carry
    else (if cc == 3
        then not f.carry
        else (if cc == 4
            then f.zero_flag
            else (if cc == 5
                then not f.zero_flag
                else (if cc == 6
                    then (if f.carry then true else f.zero_flag)
                    else (if cc == 7
                        then (if f.carry then false else not f.zero_flag)
                        else (if cc == 12
                            then f.less
                            else (if cc == 13
                                then not f.less
                                else (if cc == 14
                                    then (if f.zero_flag then true else f.less)
                                    else (if cc == 15
                                        then (if f.zero_flag then false else not f.less)
                                        else false)))))))))

-- The instructions at the start of `bytes` lead from `m` to `m'`, with `rest` left.
pub data Runs : List ℕ → Machine → List ℕ → Machine → Type 0 where
  stop : {bytes : List ℕ} {m : Machine} → Runs bytes m bytes m
  then_run :
      {bytes rest end : List ℕ} {m n p : Machine} {i : Instr}
      → read bytes ≡ some (i, rest)
      → execute i m ≡ some n
      → Runs rest n end p
      → Runs bytes m end p

pub Runs-trans : {a b c : List ℕ} {m n p : Machine} → Runs a m b n → Runs b n c p → Runs a m c p
Runs-trans stop q = q
Runs-trans (then_run r e p) q = then_run r e (Runs-trans p q)
