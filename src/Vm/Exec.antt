-- ===== src/Vm/Exec.antt =====
-- `ubpf_exec` (tools/ubpf/vm/ubpf_vm.c): the interpreter, as a step on the program counter, the
-- registers and the memory, and the `while (1)` around it on fuel.
pub mod Flow
pub mod Words
pub mod Registers
pub mod Reach
pub mod Inside
pub mod Stored
pub mod Forward
pub mod Frame
pub mod Defined
use ve_bpf.Base.{
  ℕ, zero, suc, ◌+◌, ◌*◌, ◌^◌, bit_and, bit_or, Bool, true, not, ◌&&◌, Option, none, some, List,
  ltb, leb, ◌==◌, if◌then◌else◌, get_elem?, ltb_ℤ, leb_ℤ,
}
use ve_bpf.Base.Word.{u16, u64, sext32, sext16, signed64, uint64_max}
use ve_bpf.Ebpf.{Inst}
use ve_bpf.Ebpf.Opcode.{
  Source, src_imm, src_reg, Size, size_w, size_h, size_b, size_dw, Cond, jeq, jgt, jge, jset, jne,
  jsgt, jsge, jlt, jle, jslt, jsle, Opcode, alu, alu64, neg, neg64, le, be, lddw, ja, call, exit,
  ldx, st, stx, jump, decode,
}
use ve_bpf.Vm.Memory.{Memory, update, load, store}
use ve_bpf.Vm.State.{Vm, ExtFunc, stack_size}
use ve_bpf.Vm.Alu.{AluResult, alu32, neg32, to_le, to_be}
use ve_bpf.Vm.Alu

-- What a call of `ubpf_exec` is given and does not change: the machine, the context `mem` with its
-- length, the address of the array `stack` of the call, and which accesses C defines in it: of how many
-- bytes at which address there is an object, aligned as the type asks.
pub record Context : Type 0 where
  pub vm : Vm
  pub code : List Inst
  pub mem_base : ℕ
  pub mem_len : ℕ
  pub stack : ℕ
  pub is_accessible : ℕ → ℕ → Bool

-- The locals `pc` and `reg`, and the memory.
pub record State : Type 0 where
  pub pc : ℕ
  pub reg : ℕ → ℕ
  pub memory : Memory

-- What the code prints to `stderr` before it returns `UINT64_MAX`.
pub data Fault : Type 0 where
  division_by_zero : ℕ → Fault
  out_of_bounds_load out_of_bounds_store : ℕ → ℕ → ℕ → Fault

-- One round of the loop: it goes on, returns a value, returns `UINT64_MAX` after a message, or meets
-- what C leaves undefined.
pub data Outcome : Type 0 where
  next : State → Outcome
  returned : ℕ → Memory → Outcome
  faulted : Fault → Memory → Outcome
  undefined : Outcome

-- `bounds_check`. Pointers are compared and added as 64-bit numbers.
unfoldable pub bounds_check : Context → ℕ → ℕ → Bool
bounds_check c addr size =
    if not c.vm.bounds_check_enabled
    then true
    else (if not (c.mem_base == 0)
          && (leb c.mem_base addr && leb (u64 (addr + size)) (u64 (c.mem_base + c.mem_len)))
        then true
        else leb c.stack addr && leb (u64 (addr + size)) (u64 (c.stack + stack_size)))

unfoldable pub size_bytes : Size → ℕ
size_bytes size_w = 4
size_bytes size_h = 2
size_bytes size_b = 1
size_bytes size_dw = 8

-- The second operand of an ALU case.
abbrev pub operand : Source → Inst → (ℕ → ℕ) → ℕ
operand src_imm inst reg = sext32 inst.imm
operand src_reg inst reg = reg inst.src

-- The second operand of a jump: `JGT`, `JGE`, `JLT` and `JLE` cast the immediate to `uint32_t`,
-- the others convert it with its sign.
abbrev pub jump_operand : Cond → Source → Inst → (ℕ → ℕ) → ℕ
jump_operand _ src_reg inst reg = reg inst.src
jump_operand jgt src_imm inst reg = inst.imm
jump_operand jge src_imm inst reg = inst.imm
jump_operand jlt src_imm inst reg = inst.imm
jump_operand jle src_imm inst reg = inst.imm
jump_operand _ src_imm inst reg = sext32 inst.imm

unfoldable pub condition : Cond → ℕ → ℕ → Bool
condition jeq a b = a == b
condition jgt a b = ltb b a
condition jge a b = leb b a
condition jset a b = not (bit_and a b == 0)
condition jne a b = not (a == b)
condition jsgt a b = ltb_ℤ (signed64 b) (signed64 a)
condition jsge a b = leb_ℤ (signed64 b) (signed64 a)
condition jlt a b = ltb a b
condition jle a b = leb a b
condition jslt a b = ltb_ℤ (signed64 a) (signed64 b)
condition jsle a b = leb_ℤ (signed64 a) (signed64 b)

-- `reg[inst.dst] = v`.
abbrev pub set_dst : Inst → State → ℕ → State
set_dst inst m v = record m { reg = update m.reg inst.dst v }

unfoldable pub alu_outcome : ℕ → Inst → State → AluResult → Outcome
alu_outcome cur_pc inst m (AluResult.value v) = next (set_dst inst m v)
alu_outcome cur_pc inst m AluResult.div_by_zero = faulted (division_by_zero cur_pc) m.memory
alu_outcome cur_pc inst m AluResult.undefined = Outcome.undefined

-- `pc += inst.offset` on a `uint16_t`.
abbrev pub branch : Inst → State → State
branch inst m = record m { pc = u16 (m.pc + inst.offset) }

-- The address of an access through register `r`.
abbrev pub address : Inst → ℕ → State → ℕ
address inst r m = u64 (m.reg r + sext16 inst.offset)

-- A store of the low bytes of `x`, behind `BOUNDS_CHECK_STORE`. What passes the check may still be no
-- object.
unfoldable pub store_outcome : Context → ℕ → Inst → State → Size → ℕ → Outcome
store_outcome c cur_pc inst m z x =
    let addr = address inst inst.dst m in
    if bounds_check c addr (size_bytes z)
    then (if c.is_accessible addr (size_bytes z)
        then next (record m { memory = store (size_bytes z) addr x m.memory })
        else Outcome.undefined)
    else faulted (out_of_bounds_store cur_pc addr (size_bytes z)) m.memory

unfoldable pub load_outcome : Context → ℕ → Inst → State → Size → Outcome
load_outcome c cur_pc inst m z =
    let addr = address inst inst.src m in
    if bounds_check c addr (size_bytes z)
    then (if c.is_accessible addr (size_bytes z)
        then next (set_dst inst m (load (size_bytes z) addr m.memory))
        else Outcome.undefined)
    else faulted (out_of_bounds_load cur_pc addr (size_bytes z)) m.memory

-- `insts[pc++].imm << 32` is read past the end only if the code was not validated.
unfoldable pub lddw_outcome : Inst → State → Option Inst → Outcome
lddw_outcome inst m none = Outcome.undefined
lddw_outcome inst m (some second) = next (record m {
  pc = u16 (m.pc + 1);
  reg = update m.reg inst.dst (bit_or inst.imm (u64 (second.imm * 2 ^ 32)));
})

-- A call through a null pointer, or past the table, is undefined.
unfoldable pub call_outcome : State → Option ExtFunc → Outcome
call_outcome m none = Outcome.undefined
call_outcome m (some fn) =
    let (result, memory) = fn.apply (m.reg 1) (m.reg 2) (m.reg 3) (m.reg 4) (m.reg 5) m.memory in
    next (record m { reg = update m.reg 0 result; memory = memory })

-- The `switch`. `m` is the state after `pc++`.
unfoldable pub exec_opcode : Context → ℕ → Inst → State → Option Opcode → Outcome
unfolding alu_outcome store_outcome load_outcome lddw_outcome call_outcome condition
exec_opcode c cur_pc inst m none = next m
exec_opcode c cur_pc inst m (some (alu op s)) =
    alu_outcome cur_pc inst m (alu32 op s (m.reg inst.dst) (operand s inst m.reg))
exec_opcode c cur_pc inst m (some (alu64 op s)) =
    alu_outcome cur_pc inst m (Alu.alu64 op s (m.reg inst.dst) (operand s inst m.reg))
exec_opcode c cur_pc inst m (some neg) = next (set_dst inst m (neg32 (m.reg inst.dst)))
exec_opcode c cur_pc inst m (some neg64) = next (set_dst inst m (Alu.neg64 (m.reg inst.dst)))
exec_opcode c cur_pc inst m (some le) = next (set_dst inst m (to_le inst.imm (m.reg inst.dst)))
exec_opcode c cur_pc inst m (some be) = next (set_dst inst m (to_be inst.imm (m.reg inst.dst)))
exec_opcode c cur_pc inst m (some (ldx z)) = load_outcome c cur_pc inst m z
exec_opcode c cur_pc inst m (some (st z)) = store_outcome c cur_pc inst m z (sext32 inst.imm)
exec_opcode c cur_pc inst m (some (stx z)) = store_outcome c cur_pc inst m z (m.reg inst.src)
exec_opcode c cur_pc inst m (some lddw) = lddw_outcome inst m (get_elem? c.code m.pc)
exec_opcode c cur_pc inst m (some ja) = next (branch inst m)
exec_opcode c cur_pc inst m (some (jump k s)) =
    next (if condition k (m.reg inst.dst) (jump_operand k s inst m.reg) then branch inst m else m)
exec_opcode c cur_pc inst m (some call) = call_outcome m (c.vm.ext_funcs inst.imm)
exec_opcode c cur_pc inst m (some exit) = returned (m.reg 0) m.memory

-- `insts[pc++]`, then the `switch`; a fetch past the end is undefined.
unfoldable pub fetched : Context → State → Option Inst → Outcome
unfolding exec_opcode
fetched c m none = Outcome.undefined
fetched c m (some inst) =
    exec_opcode c m.pc inst (record m { pc = u16 (m.pc + 1) }) (decode inst.opcode)

unfoldable pub step : Context → State → Outcome
unfolding fetched bounds_check size_bytes store load
step c m = fetched c m (get_elem? c.code m.pc)

-- What a call of `ubpf_exec` comes to.
pub data Result : Type 0 where
  returns : ℕ → Memory → Result
  faults : Fault → Memory → Result
  undefined out_of_fuel : Result

-- The `while (1)`.
unfoldable pub run : ℕ → Context → State → Result
run zero c m = out_of_fuel
run (suc fuel) c m = elim (step c m) [
  | next m' ↦ run fuel c m'
  | returned v memory ↦ returns v memory
  | faulted e memory ↦ faults e memory
  | Outcome.undefined ↦ Result.undefined
]

-- The registers at entry: `garbage` is what the uninitialised array holds.
abbrev pub entry_registers : ℕ → ℕ → (ℕ → ℕ) → ℕ → ℕ
entry_registers mem_base stack garbage =
    update (update garbage 1 mem_base) 10 (u64 (stack + stack_size))

abbrev pub context_of : Vm → List Inst → ℕ → ℕ → ℕ → (ℕ → ℕ → Bool) → Context
context_of vm code mem_base mem_len stack accessible = record {
  vm = vm;
  code = code;
  mem_base = mem_base;
  mem_len = mem_len;
  stack = stack;
  is_accessible = accessible;
}

abbrev pub entry_state : ℕ → ℕ → (ℕ → ℕ) → Memory → State
entry_state mem_base stack garbage memory = record {
  pc = 0;
  reg = entry_registers mem_base stack garbage;
  memory = memory;
}

exec_code : ℕ → Vm → Option (List Inst) → ℕ → ℕ → ℕ → (ℕ → ℕ → Bool) → (ℕ → ℕ) → Memory → Result
unfolding run
exec_code fuel vm none mem_base mem_len stack accessible garbage memory = returns uint64_max memory
exec_code fuel vm (some code) mem_base mem_len stack accessible garbage memory =
    run fuel (context_of vm code mem_base mem_len stack accessible)
      (entry_state mem_base stack garbage memory)

unfoldable pub exec : ℕ → Vm → ℕ → ℕ → ℕ → (ℕ → ℕ → Bool) → (ℕ → ℕ) → Memory → Result
unfolding exec_code
exec fuel vm mem_base mem_len stack accessible garbage memory =
    exec_code fuel vm vm.insts mem_base mem_len stack accessible garbage memory

-- The `uint64_t` that the caller sees.
abbrev pub result_value : Result → Option ℕ
result_value (returns v _) = some v
result_value (faults _ _) = some uint64_max
result_value _ = none
