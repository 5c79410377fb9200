-- ===== src/Vm/Validate.antt =====
-- `validate` (tools/ubpf/vm/ubpf_vm.c): the check of a program before it is loaded.
pub mod Sound
use ve_bpf.Base.{
  ℕ, ◌+◌, ◌-◌, ◌^◌, Bool, true, false, not, ◌&&◌, ◌||◌, Option, none, some, List, [], ◌∷◌, ltb, leb,
  ◌==◌, if◌then◌else◌, length, get_elem?,
}
use ve_bpf.Ebpf.{Inst}
use ve_bpf.Ebpf.Opcode.{
  src_imm, div, modulo, Opcode, alu, alu64, le, be, lddw, ja, call, st, stx, jump, decode,
}
use ve_bpf.Vm.State.{Vm, max_insts, max_ext_funcs}

-- The messages of `validate`, each with the index of the instruction.
pub data Invalid : Type 0 where
  too_many_instructions : Invalid
  invalid_endian_immediate incomplete_lddw infinite_loop jump_out_of_bounds : ℕ → Invalid
  jump_to_middle_of_lddw invalid_call_immediate call_to_nonexistent division_by_zero : ℕ → Invalid
  unknown_opcode invalid_source invalid_destination : ℕ → Invalid

pub data Checked {ℓ} (A : Type ℓ) : Type ℓ where
  valid : A → Checked A
  invalid : Invalid → Checked A

infixl 5 ◌>>=◌ ◌>>◌
abbrev pub ◌>>=◌ {ℓ κ} : {A : Type ℓ} {B : Type κ} → Checked A → (A → Checked B) → Checked B
valid a >>= f = f a
invalid e >>= f = invalid e

abbrev pub ◌>>◌ {ℓ} : {B : Type ℓ} → Checked (Unit {0}) → Checked B → Checked B
m >> k = m >>= λ _. k

-- `if (bad) { *errmsg = …; return false; }`.
abbrev pub reject_if : Bool → Invalid → Checked (Unit {0})
reject_if true e = invalid e
reject_if false e = valid tt

abbrev pub opcode_is_zero : Option Inst → Bool
opcode_is_zero none = false
opcode_is_zero (some inst) = inst.opcode == 0

abbrev pub is_null {ℓ} : {A : Type ℓ} → Option A → Bool
is_null none = true
is_null (some _) = false

-- `i + 1 + inst.offset` as an `int`, where it is not negative: `offset` is a two's complement
-- pattern of 16 bits.
abbrev pub jump_target : ℕ → ℕ → Option ℕ
jump_target i offset =
    if ltb offset (2 ^ 15)
    then some (i + 1 + offset)
    else (if ltb (i + 1 + offset) (2 ^ 16) then none else some (i + 1 + offset - 2 ^ 16))

-- The bounds of the target `new_pc`, `none` if negative, and the opcode there.
unfoldable pub check_target : List Inst → ℕ → Option ℕ → Checked (Unit {0})
check_target insts i none = invalid (jump_out_of_bounds i)
check_target insts i (some new_pc) = do
  reject_if (leb (length insts) new_pc) (jump_out_of_bounds i)
  reject_if (opcode_is_zero (get_elem? insts new_pc)) (jump_to_middle_of_lddw i)

-- What the `switch` checks of the instruction `inst` at `i`.
unfoldable pub check_opcode : Vm → List Inst → ℕ → Inst → Option Opcode → Checked (Unit {0})
unfolding check_target
check_opcode vm insts i inst none = invalid (unknown_opcode i)
check_opcode vm insts i inst (some le) =
    reject_if (not (inst.imm == 16) && (not (inst.imm == 32) && not (inst.imm == 64)))
      (invalid_endian_immediate i)
check_opcode vm insts i inst (some be) =
    reject_if (not (inst.imm == 16) && (not (inst.imm == 32) && not (inst.imm == 64)))
      (invalid_endian_immediate i)
check_opcode vm insts i inst (some lddw) =
    reject_if (leb (length insts) (i + 1) || not (opcode_is_zero (get_elem? insts (i + 1))))
      (incomplete_lddw i)
check_opcode vm insts i inst (some ja) = do
  reject_if (inst.offset == 2 ^ 16 - 1) (infinite_loop i)
  check_target insts i (jump_target i inst.offset)
check_opcode vm insts i inst (some (jump c s)) = do
  reject_if (inst.offset == 2 ^ 16 - 1) (infinite_loop i)
  check_target insts i (jump_target i inst.offset)
check_opcode vm insts i inst (some call) = do
  reject_if (leb (2 ^ 31) inst.imm || leb max_ext_funcs inst.imm) (invalid_call_immediate i)
  reject_if (is_null (vm.ext_funcs inst.imm)) (call_to_nonexistent i)
check_opcode vm insts i inst (some (alu div src_imm)) =
    reject_if (inst.imm == 0) (division_by_zero i)
check_opcode vm insts i inst (some (alu modulo src_imm)) =
    reject_if (inst.imm == 0) (division_by_zero i)
check_opcode vm insts i inst (some (alu64 div src_imm)) =
    reject_if (inst.imm == 0) (division_by_zero i)
check_opcode vm insts i inst (some (alu64 modulo src_imm)) =
    reject_if (inst.imm == 0) (division_by_zero i)
check_opcode vm insts i inst (some _) = valid tt

-- The flag `store`, and whether `i++` passes over a second slot.
abbrev pub is_store : Option Opcode → Bool
is_store (some (st _)) = true
is_store (some (stx _)) = true
is_store _ = false

abbrev pub is_lddw : Option Opcode → Bool
is_lddw (some lddw) = true
is_lddw _ = false

-- How far the loop moves on.
abbrev pub width : Inst → ℕ
width inst = if is_lddw (decode inst.opcode) then 2 else 1

-- The body of the loop at the instruction `inst` with index `i`; `i++` comes before the registers
-- are checked.
unfoldable pub check_inst : Vm → List Inst → ℕ → Inst → Checked (Unit {0})
unfolding check_opcode
check_inst vm insts i inst = do
  check_opcode vm insts i inst (decode inst.opcode)
  let at = if is_lddw (decode inst.opcode) then i + 1 else i
  reject_if (ltb 10 inst.src) (invalid_source at)
  reject_if (ltb 9 inst.dst && not (is_store (decode inst.opcode) && inst.dst == 10))
      (invalid_destination at)

-- The loop from index `i`, where `rest` is what is left of `insts`. Under `skip` the instruction is
-- the second slot of the `lddw` before it, which `i++` has passed over.
unfoldable pub check_from : Vm → List Inst → Bool → ℕ → List Inst → Checked (Unit {0})
check_from vm insts skip i [] = valid tt
check_from vm insts true i (inst ∷ rest) = check_from vm insts false (i + 1) rest
check_from vm insts false i (inst ∷ rest) = do
  check_inst vm insts i inst
  check_from vm insts (is_lddw (decode inst.opcode)) (i + 1) rest

unfoldable pub validate : Vm → List Inst → Checked (Unit {0})
unfolding check_from check_inst
validate vm insts = do
  reject_if (leb max_insts (length insts)) too_many_instructions
  check_from vm insts false 0 insts
