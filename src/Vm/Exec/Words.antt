-- ===== src/Vm/Exec/Words.antt =====
-- About the widths of the registers and the bytes of memory in `ubpf_exec`
-- (tools/ubpf/vm/ubpf_vm.c).
use mathlib.Core.Path.{subst}
use ve_bpf.Base.{
  ℕ, ◌+◌, ◌*◌, ◌^◌, ◌<◌, ◌≤◌, ◌≡◌, refl, Option, none, some, arith, get_elem?, bit_or, Bool, true,
  false, if◌then◌else◌,
}
use ve_bpf.Base.Bits.{bit_or-lt}
use ve_bpf.Base.Word.{u16, u64, sext32}
use ve_bpf.Ebpf.{Inst, IsInst}
use ve_bpf.Ebpf.Encoding.RoundTrip.{AreInsts, AreInsts-get_elem?}
use ve_bpf.Ebpf.Opcode.{
  Source, src_imm, src_reg, Size, size_w, Opcode, alu, alu64, neg, neg64, le, be, lddw, ja, call,
  exit, ldx, st, stx, jump, decode,
}
use ve_bpf.Vm.State.{Vm, ExtFunc}
use ve_bpf.Vm.Memory.{Memory, update, load, store}
use ve_bpf.Vm.Memory.Laws.{load-lt, store_bytes}
use ve_bpf.Vm.Alu.{AluResult, value, div_by_zero, undefined}
use ve_bpf.Vm.Alu
use ve_bpf.Vm.Alu.Width.{alu32-lt, alu64-lt, neg32-lt, neg64-lt, to_le-lt, to_be-lt}
use ve_bpf.Vm.Exec.{
  Context, State, next, set_dst, branch, jump_operand, condition, operand, size_bytes, address,
  exec_opcode, alu_outcome, load_outcome, store_outcome, lddw_outcome, call_outcome, fetched, step,
}

pub record AreWords (m : State) : Type 0 where
  pub registers : (r : ℕ) → m.reg r < 2 ^ 64
  pub bytes : (a : ℕ) → m.memory a < 256

-- External functions given words return a word and leave bytes.
abbrev pub CallsReturnWords : Vm → Type 0
CallsReturnWords vm =
    (i : ℕ) (fn : ExtFunc)
    → vm.ext_funcs i ≡ some fn
    → (a1 a2 a3 a4 a5 : ℕ) (memory : Memory) → ((a : ℕ) → memory a < 256)
    → ((fn.apply a1 a2 a3 a4 a5 memory).0 < 2 ^ 64)
      × ((a : ℕ) → (fn.apply a1 a2 a3 a4 a5 memory).1 a < 256)

update-lt : (f : ℕ → ℕ) (i v r bound : ℕ) → f r < bound → v < bound → update f i v r < bound
update-lt f i v r bound h k = ground arith

set_reg-AreWords :
    (m : State) (pc i v : ℕ)
    → AreWords m
    → v < 2 ^ 64
    → AreWords (record m { pc = pc; reg = update m.reg i v })
set_reg-AreWords m pc i v w h = record {
  registers = λ r. update-lt m.reg i v r (2 ^ 64) (w.registers r) h;
  bytes = w.bytes;
}

module _ (c : Context) (calls : CallsReturnWords c.vm) (cur : ℕ) (inst : Inst)
    (fits : IsInst inst) where
  alu_outcome-AreWords :
      (m m' : State) (r : AluResult)
      → AreWords m
      → ((v : ℕ) → r ≡ value v → v < 2 ^ 64)
      → alu_outcome cur inst m r ≡ next m'
      → AreWords m'
  unfolding alu_outcome
  alu_outcome-AreWords m m' (value v) w k h =
      let same : record m { reg = update m.reg inst.dst v } ≡ m' = cc in
      subst AreWords same (set_reg-AreWords m m.pc inst.dst v w (k v refl))
  alu_outcome-AreWords m m' div_by_zero w k h = cc
  alu_outcome-AreWords m m' undefined w k h = cc

  operand-lt : (s : Source) (m : State) → AreWords m → operand s inst m.reg < 2 ^ 64
  operand-lt src_imm m w = ground (arith, fits)
  operand-lt src_reg m w = w.registers inst.src

  load_outcome-next :
      (m m' : State) (z : Size)
      → load_outcome c cur inst m z ≡ next m'
      → record m {
        reg = update m.reg inst.dst (load (size_bytes z) (address inst inst.src m) m.memory);
      }
        ≡ m'
  unfolding load_outcome
  load_outcome-next m m' z h = ground arith

  store_outcome-next :
      (m m' : State) (z : Size) (x : ℕ)
      → store_outcome c cur inst m z x ≡ next m'
      → record m { memory = store (size_bytes z) (address inst inst.dst m) x m.memory } ≡ m'
  unfolding store_outcome
  store_outcome-next m m' z x h = ground arith

  stored-AreWords :
      (m : State) (n addr x : ℕ)
      → AreWords m
      → AreWords (record m { memory = store n addr x m.memory })
  stored-AreWords m n addr x w = record {
    registers = w.registers;
    bytes = λ a. store_bytes n addr x m.memory a w.bytes;
  }

  size_pow : (z : Size) → 256 ^ size_bytes z ≤ 2 ^ 64
  unfolding size_bytes
  size_pow size_w = omega arith
  size_pow _ = omega arith

  load_outcome-AreWords :
      (m m' : State) (z : Size) → AreWords m → load_outcome c cur inst m z ≡ next m' → AreWords m'
  load_outcome-AreWords m m' z w h =
      let v = load (size_bytes z) (address inst inst.src m) m.memory in
      let small : v < 2 ^ 64 =
        omega
          (arith, load-lt (size_bytes z) (address inst inst.src m) m.memory w.bytes, size_pow z) in
      subst AreWords (load_outcome-next m m' z h) (set_reg-AreWords m m.pc inst.dst v w small)

  store_outcome-AreWords :
      (m m' : State) (z : Size) (x : ℕ)
      → AreWords m
      → store_outcome c cur inst m z x ≡ next m'
      → AreWords m'
  store_outcome-AreWords m m' z x w h =
      subst AreWords (store_outcome-next m m' z x h)
        (stored-AreWords m (size_bytes z) (address inst inst.dst m) x w)

  lddw_outcome-AreWords :
      (m m' : State) (o : Option Inst) → AreWords m → lddw_outcome inst m o ≡ next m' → AreWords m'
  unfolding lddw_outcome
  lddw_outcome-AreWords m m' none w h = cc
  lddw_outcome-AreWords m m' (some second) w h =
      let v = bit_or inst.imm (u64 (second.imm * 2 ^ 32)) in
      let small : v < 2 ^ 64 =
        bit_or-lt 64 inst.imm (u64 (second.imm * 2 ^ 32)) (omega (arith, fits.imm_fits))
          (omega arith) in
      let same : record m { pc = u16 (m.pc + 1); reg = update m.reg inst.dst v } ≡ m' = cc in
      subst AreWords same (set_reg-AreWords m (u16 (m.pc + 1)) inst.dst v w small)

  call_outcome-AreWords :
      (m m' : State) (i : ℕ) (o : Option ExtFunc)
      → c.vm.ext_funcs i ≡ o
      → AreWords m
      → call_outcome m o ≡ next m'
      → AreWords m'
  unfolding call_outcome
  call_outcome-AreWords m m' i none e w h = cc
  call_outcome-AreWords m m' i (some fn) e w h =
      let result = fn.apply (m.reg 1) (m.reg 2) (m.reg 3) (m.reg 4) (m.reg 5) m.memory in
      let (word, bytes) =
        calls i fn e (m.reg 1) (m.reg 2) (m.reg 3) (m.reg 4) (m.reg 5) m.memory w.bytes in
      let same : record m { reg = update m.reg 0 result.0; memory = result.1 } ≡ m' = cc in
      subst AreWords same (record {
        registers = λ r. update-lt m.reg 0 result.0 r (2 ^ 64) (w.registers r) word;
        bytes = bytes;
      })

  set_dst-AreWords :
      (m m' : State) (v : ℕ)
      → AreWords m
      → v < 2 ^ 64
      → next (set_dst inst m v) ≡ next m'
      → AreWords m'
  set_dst-AreWords m m' v w k h =
      let same : set_dst inst m v ≡ m' = cc in
      subst AreWords same (set_reg-AreWords m m.pc inst.dst v w k)

  jumped-AreWords :
      (m m' : State) (taken : Bool)
      → AreWords m
      → next (if taken then branch inst m else m) ≡ next m'
      → AreWords m'
  jumped-AreWords m m' true w h =
      let same : branch inst m ≡ m' = cc in
      subst AreWords same (record { registers = w.registers; bytes = w.bytes })
  jumped-AreWords m m' false w h = let same : m ≡ m' = cc in subst AreWords same w

  exec_opcode-AreWords :
      (m m' : State) (o : Option Opcode)
      → AreWords m
      → exec_opcode c cur inst m o ≡ next m'
      → AreWords m'
  unfolding exec_opcode
  exec_opcode-AreWords m m' none w h = let same : m ≡ m' = cc in subst AreWords same w
  exec_opcode-AreWords m m' (some (alu op s)) w h =
      let b = operand s inst m.reg in
      alu_outcome-AreWords m m' (Alu.alu32 op s (m.reg inst.dst) b) w
        (λ v e. omega (arith, alu32-lt op s (m.reg inst.dst) b v e)) h
  exec_opcode-AreWords m m' (some (alu64 op s)) w h =
      let b = operand s inst m.reg in
      alu_outcome-AreWords m m' (Alu.alu64 op s (m.reg inst.dst) b) w
        (λ v e. alu64-lt op s (m.reg inst.dst) b v (w.registers inst.dst) (operand-lt s m w) e) h
  exec_opcode-AreWords m m' (some (ldx z)) w h = load_outcome-AreWords m m' z w h
  exec_opcode-AreWords m m' (some (st z)) w h = store_outcome-AreWords m m' z (sext32 inst.imm) w h
  exec_opcode-AreWords m m' (some (stx z)) w h = store_outcome-AreWords m m' z (m.reg inst.src) w h
  exec_opcode-AreWords m m' (some lddw) w h = lddw_outcome-AreWords m m' (get_elem? c.code m.pc) w h
  exec_opcode-AreWords m m' (some call) w h =
      call_outcome-AreWords m m' inst.imm (c.vm.ext_funcs inst.imm) refl w h
  exec_opcode-AreWords m m' (some neg) w h =
      set_dst-AreWords m m' (Alu.neg32 (m.reg inst.dst)) w
        (omega (arith, neg32-lt (m.reg inst.dst))) h
  exec_opcode-AreWords m m' (some neg64) w h =
      set_dst-AreWords m m' (Alu.neg64 (m.reg inst.dst)) w (neg64-lt (m.reg inst.dst)) h
  exec_opcode-AreWords m m' (some le) w h =
      set_dst-AreWords m m' (Alu.to_le inst.imm (m.reg inst.dst)) w
        (to_le-lt inst.imm (m.reg inst.dst) (w.registers inst.dst)) h
  exec_opcode-AreWords m m' (some be) w h =
      set_dst-AreWords m m' (Alu.to_be inst.imm (m.reg inst.dst)) w
        (to_be-lt inst.imm (m.reg inst.dst) (w.registers inst.dst)) h
  exec_opcode-AreWords m m' (some ja) w h = jumped-AreWords m m' true w h
  exec_opcode-AreWords m m' (some (jump k s)) w h =
      jumped-AreWords m m' (condition k (m.reg inst.dst) (jump_operand k s inst m.reg)) w h
  exec_opcode-AreWords m m' (some exit) w h = cc

module _ (c : Context) (fields : AreInsts c.code) (calls : CallsReturnWords c.vm) where
  fetched-AreWords :
      (m m' : State) (o : Option Inst)
      → get_elem? c.code m.pc ≡ o
      → AreWords m
      → fetched c m o ≡ next m'
      → AreWords m'
  unfolding fetched
  fetched-AreWords m m' none e w h = cc
  fetched-AreWords m m' (some inst) e w h =
      exec_opcode-AreWords c calls m.pc inst (AreInsts-get_elem? c.code m.pc fields e)
        (record m { pc = u16 (m.pc + 1) }) m' (decode inst.opcode)
        (record { registers = w.registers; bytes = w.bytes }) h

  -- If the fields of the code have their C widths and the external functions, given bytes in
  -- memory, return 64-bit words and leave bytes, then a round keeps 64-bit words in the registers
  -- and bytes in memory.
  pub step-AreWords : (m m' : State) → AreWords m → step c m ≡ next m' → AreWords m'
  unfolding step
  step-AreWords m m' w h = fetched-AreWords m m' (get_elem? c.code m.pc) refl w h
