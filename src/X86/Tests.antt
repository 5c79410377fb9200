-- ===== src/X86/Tests.antt =====
-- The code for small programs, on the processor.
use mathlib.Core.Path.{subst}
use ve_bpf.Base.{
  sym, Bool, if◌then◌else◌, ◌+◌, ◌^◌, ◌≡◌, refl, true, false, arith, List, [], ◌∷◌, ◌++◌, none,
  some,
}
use ve_bpf.Ebpf.{Inst}
use ve_bpf.Ebpf.Opcode.{Opcode, decode, src_imm, jne}
use ve_bpf.Ebpf.Encoding.{of_bytes}
use ve_bpf.Vm.Alu
use ve_bpf.Ebpf.Encoding.RoundTrip.{AreInsts}
use ve_bpf.Vm.State.{Vm}
use ve_bpf.Vm.Memory.{update}
use ve_bpf.Vm.Exec.{Context, State, next, step}
use ve_bpf.Jit.State.{Jit, Emitted, emitted}
use ve_bpf.Jit.Compile.{initial}
use ve_bpf.Jit.Registers.{
  register_map, rotate, set_register_offset, set_register_offset-IsRearranged,
}
use ve_bpf.Jit.Translate.{Host, translate_inst, translate_from}
use ve_bpf.X86.Format.{opcode, binary_imm, w64, add, read}
use ve_bpf.X86.Machine.{Machine}
use ve_bpf.X86.Computes.{Computes, register_map-IsMap, IsMap, IsRearranged-IsMap}
use ve_bpf.X86.Block.{Straight, one_slot, two_slots, done, Straight-Computes}
use ve_bpf.X86.Branch.{Branches, Straight-Branches}

-- lddw r2, 0x100000005; add64 r1, r2; lsh32 r1, 3; jne r1, 40, +1; exit; exit.
abbrev wide : Inst
wide = record { opcode = 0x18; dst = 2; src = 0; offset = 0; imm = 5 }

abbrev upper : Inst
upper = record { opcode = 0; dst = 0; src = 0; offset = 0; imm = 1 }

abbrev sum : Inst
sum = record { opcode = 0x0f; dst = 1; src = 2; offset = 0; imm = 0 }

abbrev shift : Inst
shift = record { opcode = 0x64; dst = 1; src = 0; offset = 0; imm = 3 }

abbrev test : Inst
test = record { opcode = 0x55; dst = 1; src = 0; offset = 1; imm = 40 }

abbrev leave : Inst
leave = record { opcode = 0x95; dst = 0; src = 0; offset = 0; imm = 0 }

abbrev stretch : List Inst
stretch = wide ∷ upper ∷ sum ∷ shift ∷ []

abbrev program : List Inst
program = stretch ++ test ∷ leave ∷ leave ∷ []

abbrev vm : Vm
vm = record {
  insts = some program;
  num_insts = 7;
  jitted = none;
  jitted_size = 0;
  ext_funcs = λ _. none;
  ext_func_names = λ _. none;
  bounds_check_enabled = true;
}

abbrev context : Context
context = record {
  vm = vm;
  code = program;
  mem_base = 0;
  mem_len = 0;
  stack = 4096;
  is_accessible = λ _ _. true;
}

abbrev host : Host
host = record {
  register_map = register_map;
  stderr_address = 2 ^ 46;
  fprintf_address = 2 ^ 46 + 4096;
  format_address = 2 ^ 46 + 8192;
}

-- The registers hold 7.
abbrev start : State
start = record { pc = 0; reg = λ _. 7; memory = λ _. 0 }

abbrev loaded : State
loaded = record start { pc = 2; reg = update start.reg 2 0x100000005 }

abbrev added : State
added = record start { pc = 3; reg = update loaded.reg 1 0x10000000c }

abbrev shifted : State
shifted = record start { pc = 4; reg = update added.reg 1 96 }

first_round : step context start ≡ next loaded
unfolding step decode
first_round = refl

second_round : step context loaded ≡ next added
unfolding step decode Alu.alu64
second_round = refl

third_round : step context added ≡ next shifted
unfolding step decode Alu.alu32
third_round = refl

rounds : Straight context stretch start shifted
unfolding decode
rounds =
    two_slots refl refl refl first_round
      (one_slot refl refl refl refl second_round (one_slot refl refl refl refl third_round done))

abbrev machine : Machine
machine = record { reg = λ _. 7; flags = none }

state_or_initial : Emitted → Jit
state_or_initial (emitted s) = s
state_or_initial _ = initial

written : Jit
written = state_or_initial (translate_from host vm program false 0 stretch initial)

written-emitted : translate_from host vm program false 0 stretch initial ≡ emitted written
unfolding written state_or_initial translate_from decode translate_inst
written-emitted = refl

-- add r9, 1.
read_add :
    read (0x49 ∷ 0x81 ∷ 0xc1 ∷ 1 ∷ 0 ∷ 0 ∷ 0 ∷ 0x90 ∷ []) ≡ some (binary_imm w64 add 9 1, 0x90 ∷ [])
unfolding read opcode of_bytes
read_add = refl

program-AreInsts : AreInsts program
program-AreInsts = ground arith

Straight-Computes_example : Computes initial written machine register_map shifted.reg
Straight-Computes_example =
    Straight-Computes host context register_map-IsMap program-AreInsts (omega arith)
      (λ i fn h. absurd cc) stretch 0 start shifted machine initial written rounds refl
      (record { registers = λ r. omega arith; bytes = λ a. omega arith })
      (record { holds = λ r h. refl }) written-emitted

abbrev tested : State
tested = record start { pc = 6; reg = shifted.reg }

fourth_round : step context shifted ≡ next tested
unfolding step decode
fourth_round = refl

with_test : Jit
unfolding written
with_test = state_or_initial (translate_from host vm program false 0 (stretch ++ test ∷ []) initial)

with_test-emitted :
    translate_from host vm program false 0 (stretch ++ test ∷ []) initial ≡ emitted with_test
unfolding with_test state_or_initial translate_from translate_inst decode
with_test-emitted = refl

test-decoded : decode test.opcode ≡ some (Opcode.jump jne src_imm)
unfolding decode
test-decoded = refl

Straight-Branches_example :
    (b : Bool) × Branches initial with_test machine register_map tested.reg b
    × (tested.pc ≡ (if b then 6 else 5))
Straight-Branches_example =
    Straight-Branches host context register_map-IsMap program-AreInsts (omega arith)
      (λ i fn h. absurd cc) stretch test jne src_imm 0 start shifted tested machine initial
      with_test rounds refl (record { registers = λ r. omega arith; bytes = λ a. omega arith })
      (record { holds = λ r h. refl }) refl test-decoded refl fourth_round with_test-emitted

-- The map of the registers after `ubpf_set_register_offset` with 3.
rotated-IsMap : IsMap (rotate 3 register_map)
unfolding set_register_offset
rotated-IsMap =
    let (map', chosen, rearranged) =
      set_register_offset-IsRearranged (λ seed. (0, seed)) 3 register_map (omega arith) in
    let same : rotate 3 register_map ≡ map' = cc in
    subst IsMap (sym same) (IsRearranged-IsMap register_map map' register_map-IsMap rearranged)
