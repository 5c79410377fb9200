-- ===== src/Vm/Tests.antt =====
-- Runs of tools/ubpf/vm/ubpf_vm.c on small programs.
mod Parts
use mathlib.Core.Path.{subst}
use ve_bpf.Base.{
  get_elem?, ap, ℕ, zero, suc, ◌+◌, ◌-◌, ◌%◌, ◌^◌, ◌<◌, ◌≤◌, ◌≡◌, ◌≢◌, ◌↔◌, ◌==◌, if◌then◌else◌,
  inl, inr, refl, true, some, none, List, [], ◌∷◌, arith,
}
use ve_bpf.Base.Word.{u32, u64, signed32, signed64}
use ve_bpf.Ebpf.{Inst}
use ve_bpf.Ebpf.Opcode.{decode, opcode_value, lddw, src_imm, src_reg, arsh, div, modulo}
use ve_bpf.Ebpf.Encoding.{insts_bytes, insts_of_bytes}
use ve_bpf.Ebpf.Encoding.RoundTrip.{AreInsts, insts_of_bytes-insts_bytes}
use ve_bpf.Vm.State.{Vm, ExtFunc, lookup_registered_function, register}
use ve_bpf.Vm.State.Laws.{lookup_registered_function_lem, register-lookup, IsLookup}
use ve_bpf.Vm.Memory.{load, store}
use ve_bpf.Vm.Alu.Width.{alu32-lt, alu64-lt}
use ve_bpf.Vm.Alu.Meaning.{floor_div, arsh64-floor, arsh32-floor}
use ve_bpf.Vm.Validate.{validate, valid}
use ve_bpf.Vm.Validate.Sound.{IsValidated, validate-IsValidated}
use ve_bpf.Vm.Load
use ve_bpf.Vm.Load.{Loaded, loaded, not_loaded}
use ve_bpf.Vm.Load.Laws.{with_code, load-loaded, load-insts_bytes}
use ve_bpf.Vm.Exec.{
  Context, State, Outcome, next, exec, step, result_value, entry_registers, bounds_check,
  out_of_fuel,
}
use ve_bpf.Vm.Exec.Flow.{IsPosition, is_jump}
use ve_bpf.Vm.Exec.Stored.{stx-ldx}
use ve_bpf.Vm.Exec.{exec_opcode, size_bytes}
use ve_bpf.Ebpf.Opcode.{size_h, stx, ldx}
use ve_bpf.Vm.Exec.Frame.{
  IsPlaced, IsInside, IsOutside, CallsKeep, bounds_check_iff, bounds_check-wraps,
}
use ve_bpf.Vm.Exec.Defined.{OperandInRange, step-defined}
use ve_bpf.Vm.Exec.Words.{AreWords, CallsReturnWords, step-AreWords}
use ve_bpf.Vm.Exec.Registers.{step-registers}
use ve_bpf.Vm.Exec.Inside.{EndsInExit, Fetches, loaded-Fetches}
use ve_bpf.Vm.Exec.Reach.{Reaches, here, round, start-IsPosition, Reaches-contained, Reaches-frame}
use ve_bpf.Vm.Exec.Forward.{IsForward, exec-ends}
use ve_bpf.Vm.Alu
use ve_bpf.Vm.Alu.{value, AluResult}

-- An external function: the sum of its first two arguments.
abbrev sum_of_two : ExtFunc
sum_of_two = record { address = 0x1000; apply = λ a1 a2 a3 a4 a5 memory. (u64 (a1 + a2), memory) }

abbrev fresh : Vm
fresh = record {
  insts = none;
  num_insts = 0;
  jitted = none;
  jitted_size = 0;
  ext_funcs = λ i. if i == 0 then some sum_of_two else none;
  ext_func_names = λ i. if i == 0 then some (0x73 ∷ []) else none;
  bounds_check_enabled = true;
}

-- mov32 r0, 0; mov32 r1, 2; add32 r0, 1; add32 r0, r1; exit (the first test of tests/add.data).
abbrev add_code : List ℕ
add_code =
    0xb4 ∷ 0x00 ∷ 0 ∷ 0 ∷ 0 ∷ 0 ∷ 0 ∷ 0 ∷ 0xb4 ∷ 0x01 ∷ 0 ∷ 0 ∷ 2 ∷ 0 ∷ 0 ∷ 0 ∷ 0x04 ∷ 0x00 ∷ 0 ∷ 0
    ∷ 1 ∷ 0 ∷ 0 ∷ 0 ∷ 0x0c ∷ 0x10 ∷ 0 ∷ 0 ∷ 0 ∷ 0 ∷ 0 ∷ 0 ∷ 0x95 ∷ 0x00 ∷ 0 ∷ 0 ∷ 0 ∷ 0 ∷ 0 ∷ 0 ∷ []

run_loaded : Loaded → ℕ
unfolding exec step decode Alu.alu32 Alu.alu64
run_loaded (not_loaded _) = 1000
run_loaded (loaded vm) = elim (result_value (exec 10 vm 0 0 4096 (λ _ _. true) (λ _. 7) (λ _. 0))) [
  | none ↦ 2000
  | some v ↦ v
]

adds : run_loaded (Load.load fresh add_code true) ≡ 3
unfolding run_loaded Load.load
adds = refl

-- lsh64 r0, 3; stb [r10-1], 5; call 0; ja +0; exit.
abbrev shift : Inst
shift = record { opcode = 0x67; dst = 0; src = 0; offset = 0; imm = 3 }

abbrev store_byte : Inst
store_byte = record { opcode = 0x72; dst = 10; src = 0; offset = 0xffff; imm = 5 }

abbrev call_first : Inst
call_first = record { opcode = 0x85; dst = 0; src = 0; offset = 0; imm = 0 }

abbrev jump_on : Inst
jump_on = record { opcode = 0x05; dst = 0; src = 0; offset = 0; imm = 0 }

abbrev leave : Inst
leave = record { opcode = 0x95; dst = 0; src = 0; offset = 0; imm = 0 }

abbrev program : List Inst
program = shift ∷ store_byte ∷ call_first ∷ jump_on ∷ leave ∷ []

abbrev filled : Vm
filled = with_code fresh program

program-AreInsts : AreInsts program
program-AreInsts = ground arith

program-valid : validate filled program ≡ valid tt
unfolding validate decode
program-valid = refl

program-IsValidated : IsValidated filled program
program-IsValidated = validate-IsValidated filled program program-valid

program-IsForward : IsForward program
unfolding decode
program-IsForward zero x e j =
    let same : shift ≡ x = cc in omega (arith, ap (λ (y : Inst). y.offset) same)
program-IsForward (suc zero) x e j =
    let same : store_byte ≡ x = cc in
    subst (λ (y : Inst). is_jump (decode y.opcode) ≡ true → y.offset < 2 ^ 15) same (λ q. cc) j
program-IsForward (suc (suc zero)) x e j =
    let same : call_first ≡ x = cc in omega (arith, ap (λ (y : Inst). y.offset) same)
program-IsForward (suc (suc (suc zero))) x e j =
    let same : jump_on ≡ x = cc in omega (arith, ap (λ (y : Inst). y.offset) same)
program-IsForward (suc (suc (suc (suc zero)))) x e j =
    let same : leave ≡ x = cc in omega (arith, ap (λ (y : Inst). y.offset) same)
program-IsForward (suc (suc (suc (suc (suc i))))) x e j = cc

-- A call without a context, the stack at 4096.
abbrev context : Context
context = record {
  vm = filled;
  code = program;
  mem_base = 0;
  mem_len = 0;
  stack = 4096;
  is_accessible = λ _ _. true;
}

abbrev start : State
start = record { pc = 0; reg = entry_registers 0 4096 (λ _. 7); memory = λ _. 0 }

abbrev next_or_start : Outcome → State
next_or_start (next m) = m
next_or_start _ = start

after_one : State
after_one = next_or_start (step context start)

after_two : State
after_two = next_or_start (step context after_one)

after_three : State
after_three = next_or_start (step context after_two)

three_rounds : Reaches context start after_three
unfolding after_three after_two after_one step decode Alu.alu64
three_rounds = round (round (round here refl) refl) refl

context-IsPlaced : IsPlaced context
context-IsPlaced = record { mem_fits = omega arith; stack_fits = omega arith }

byte_nine-IsOutside : IsOutside context 9
byte_nine-IsOutside = record {
  above = omega arith;
  below = omega arith;
  not_context = inr (omega arith);
  not_stack = inl (omega arith);
}

function_at : (i : ℕ) (fn : ExtFunc) → filled.ext_funcs i ≡ some fn → sum_of_two ≡ fn
function_at i fn h = ground arith

filled-CallsKeep : CallsKeep filled 9
filled-CallsKeep i fn h a1 a2 a3 a4 a5 memory =
    subst (λ (f : ExtFunc). (f.apply a1 a2 a3 a4 a5 memory).1 9 ≡ memory 9) (function_at i fn h)
      refl

filled-CallsReturnWords : CallsReturnWords filled
filled-CallsReturnWords i fn h a1 a2 a3 a4 a5 memory bytes =
    subst
      (λ (f : ExtFunc).
        ((f.apply a1 a2 a3 a4 a5 memory).0 < 2 ^ 64)
        × ((a : ℕ) → (f.apply a1 a2 a3 a4 a5 memory).1 a < 256))
      (function_at i fn h) (omega arith, bytes)

start-IsPosition_zero : IsPosition program 0
start-IsPosition_zero = start-IsPosition filled program program-IsValidated

program-EndsInExit : EndsInExit program
program-EndsInExit = (leave, refl, refl)

operand-InRange :
    (i : ℕ) (x : Inst) (reg : ℕ → ℕ)
    → get_elem? program i ≡ some x
    → OperandInRange context (decode x.opcode) x reg
unfolding decode
operand-InRange zero x reg e =
    let same : shift ≡ x = cc in
    subst (λ (y : Inst). OperandInRange context (decode y.opcode) y reg) same (omega arith)
operand-InRange (suc zero) x reg e =
    let same : store_byte ≡ x = cc in
    subst (λ (y : Inst). OperandInRange context (decode y.opcode) y reg) same (inr refl)
operand-InRange (suc (suc zero)) x reg e =
    let same : call_first ≡ x = cc in
    subst (λ (y : Inst). OperandInRange context (decode y.opcode) y reg) same tt
operand-InRange (suc (suc (suc zero))) x reg e =
    let same : jump_on ≡ x = cc in
    subst (λ (y : Inst). OperandInRange context (decode y.opcode) y reg) same tt
operand-InRange (suc (suc (suc (suc zero)))) x reg e =
    let same : leave ≡ x = cc in
    subst (λ (y : Inst). OperandInRange context (decode y.opcode) y reg) same tt
operand-InRange (suc (suc (suc (suc (suc i))))) x reg e = absurd (cc)

start-AreWords : AreWords start
start-AreWords = record { registers = λ r. ground arith; bytes = λ a. omega arith }

after_one-next : step context start ≡ next after_one
unfolding after_one step decode Alu.alu64
after_one-next = refl

fresh-valid : validate fresh program ≡ valid tt
unfolding validate decode
fresh-valid = refl

program-loads : Load.load fresh (insts_bytes program) true ≡ loaded filled
program-loads = load-insts_bytes fresh program refl program-AreInsts fresh-valid

abbrev code_bytes : List ℕ
code_bytes =
    0x67 ∷ 0x00 ∷ 0 ∷ 0 ∷ 3 ∷ 0 ∷ 0 ∷ 0 ∷ 0x72 ∷ 0x0a ∷ 0xff ∷ 0xff ∷ 5 ∷ 0 ∷ 0 ∷ 0 ∷ 0x85 ∷ 0x00
    ∷ 0 ∷ 0 ∷ 0 ∷ 0 ∷ 0 ∷ 0 ∷ 0x05 ∷ 0x00 ∷ 0 ∷ 0 ∷ 0 ∷ 0 ∷ 0 ∷ 0 ∷ 0x95 ∷ 0x00 ∷ 0 ∷ 0 ∷ 0 ∷ 0 ∷ 0
    ∷ 0 ∷ []

bytes-load : Load.load fresh code_bytes true ≡ loaded filled
unfolding Load.load decode
bytes-load = refl

-- Witnesses.
loaded-Fetches_example : Fetches program (start.reg 10) after_three
loaded-Fetches_example =
    loaded-Fetches fresh code_bytes true context (ground arith) bytes-load refl program-EndsInExit
      refl three_rounds

Reaches-frame_example : after_three.memory 9 ≡ start.memory 9
Reaches-frame_example =
    Reaches-frame context 9 refl context-IsPlaced byte_nine-IsOutside filled-CallsKeep three_rounds

validate-IsValidated_example : IsValidated filled program
validate-IsValidated_example = validate-IsValidated filled program program-valid

step-defined_example : step context start ≢ Outcome.undefined
unfolding decode
step-defined_example =
    step-defined context program-IsValidated program-AreInsts start shift start-IsPosition_zero refl
      (omega arith)

bounds_check_example : (bounds_check context 5000 8 ≡ true) ↔ IsInside context 5000 8
bounds_check_example = bounds_check_iff context 5000 8 refl context-IsPlaced (omega arith)

load-loaded_example :
    (insts : List Inst) × (fresh.insts ≡ none)
    × (insts_of_bytes (insts_bytes program) ≡ some insts)
    × IsValidated filled insts
    × (filled ≡ with_code fresh insts)
load-loaded_example = load-loaded fresh filled (insts_bytes program) true program-loads

load-insts_bytes_example : Load.load fresh (insts_bytes program) true ≡ loaded filled
load-insts_bytes_example = load-insts_bytes fresh program refl program-AreInsts fresh-valid

exec-ends_example :
    (v : ℕ) × (result_value (exec 6 filled 0 0 4096 (λ _ _. true) (λ _. 7) (λ _. 0)) ≡ some v)
exec-ends_example =
    exec-ends 6 filled program 0 0 4096 (λ _ _. true) (λ _. 7) (λ _. 0) refl program-IsValidated
      program-AreInsts program-IsForward program-EndsInExit
      (λ t x r at. operand-InRange t.pc x t.reg at) (omega arith)

step-AreWords_example : AreWords after_one
step-AreWords_example =
    step-AreWords context program-AreInsts filled-CallsReturnWords start after_one start-AreWords
      after_one-next

-- A call with 16 bytes of context at 32.
abbrev with_context : Context
with_context = record context { mem_base = 32; mem_len = 16 }

wraps_example :
    (bounds_check with_context (2 ^ 64 - 4) 8 ≡ true) × ¬ IsInside with_context (2 ^ 64 - 4) 8
wraps_example =
    bounds_check-wraps with_context (2 ^ 64 - 4) 8
      (record { mem_fits = omega arith; stack_fits = omega arith }) (λ e. omega arith) (omega arith)
      (omega arith) (omega arith) (omega arith)

-- stxh [r10-8], r10; ldxh r3, [r10-8].
abbrev store_half : Inst
store_half = record { opcode = 0x6b; dst = 10; src = 10; offset = 0xfff8; imm = 0 }

abbrev load_half : Inst
load_half = record { opcode = 0x69; dst = 3; src = 10; offset = 0xfff8; imm = 0 }

stored_half : State
stored_half = next_or_start (exec_opcode context 0 store_half start (some (stx size_h)))

half-stored : exec_opcode context 0 store_half start (some (stx size_h)) ≡ next stored_half
unfolding stored_half exec_opcode bounds_check size_bytes
half-stored = refl

stx-ldx_example :
    (m : State) × (exec_opcode context 1 load_half stored_half (some (ldx size_h)) ≡ next m)
    × (m.reg 3 ≡ 4224)
stx-ldx_example =
    stx-ldx context size_h 0 1 store_half load_half start stored_half refl refl half-stored
