-- ===== src/Vm/Exec/Defined.antt =====
-- About what C leaves undefined in a round of `ubpf_exec` (tools/ubpf/vm/ubpf_vm.c): shifts by the
-- width or more, divisions by 0, and reads outside the code.
use ve_bpf.Base.{
  ℕ, ◌+◌, ◌^◌, ◌<◌, ◌≡◌, refl, ◌≢◌, ◌⊎◌, Option, none, some, List, arith, get_elem?, get_elem?-lt,
  true, false, inl, inr,
}
use ve_bpf.Base.Word.{u16, u32, u64, sext16}
use ve_bpf.Ebpf.{Inst}
use ve_bpf.Ebpf.Encoding.RoundTrip.{AreInsts, AreInsts-get_elem?}
use ve_bpf.Ebpf.Opcode.{
  Source, src_imm, src_reg, AluOp, add, div, lsh, rsh, modulo, arsh, Opcode, alu, alu64, lddw, call,
  ldx, st, stx, Size, decode,
}
use ve_bpf.Vm.State.{Vm}
use ve_bpf.Vm.Alu.{AluResult, value, div_by_zero, undefined}
use ve_bpf.Vm.Alu
use ve_bpf.Vm.Validate.{valid, check_opcode}
use ve_bpf.Vm.Validate.Sound.{IsValidated, check_opcode-lddw}
use ve_bpf.Vm.Exec.Flow.{IsPosition, check_inst-check_opcode}
use ve_bpf.Vm.Exec.{
  Context, State, Outcome, operand, exec_opcode, alu_outcome, load_outcome, store_outcome,
  bounds_check, size_bytes, fetched, step,
}

-- The operand `b` of a 32-bit case is in the range that C asks for. The left shift is done on
-- 64 bits. A register divisor is tested on 64 bits and used on 32.
abbrev pub InRange32 : AluOp → Source → ℕ → Type 0
InRange32 lsh _ b = b < 64
InRange32 rsh _ b = b < 32
InRange32 arsh _ b = u32 b < 32
InRange32 div src_reg b = (b ≡ 0) ⊎ (0 < u32 b)
InRange32 modulo src_reg b = (b ≡ 0) ⊎ (0 < u32 b)
InRange32 _ _ b = Unit

abbrev pub InRange64 : AluOp → ℕ → Type 0
InRange64 lsh b = b < 64
InRange64 rsh b = b < 64
InRange64 arsh b = b < 64
InRange64 _ b = Unit

-- An access that passes the check is of an object.
abbrev pub IsStopped : Context → ℕ → Size → Type 0
IsStopped c addr z =
    (bounds_check c addr (size_bytes z) ≡ false) ⊎ (c.is_accessible addr (size_bytes z) ≡ true)

abbrev pub OperandInRange : Context → Option Opcode → Inst → (ℕ → ℕ) → Type 0
OperandInRange c (some (alu op s)) inst reg = InRange32 op s (operand s inst reg)
OperandInRange c (some (alu64 op s)) inst reg = InRange64 op (operand s inst reg)
OperandInRange c (some (ldx z)) inst reg = IsStopped c (u64 (reg inst.src + sext16 inst.offset)) z
OperandInRange c (some (st z)) inst reg = IsStopped c (u64 (reg inst.dst + sext16 inst.offset)) z
OperandInRange c (some (stx z)) inst reg = IsStopped c (u64 (reg inst.dst + sext16 inst.offset)) z
OperandInRange c _ inst reg = Unit

module _ (vm : Vm) (insts : List Inst) (i : ℕ) (inst : Inst) where
  abbrev Passes : Opcode → Type 0
  Passes o = check_opcode vm insts i inst (some o) ≡ valid tt

  alu32-defined :
      (op : AluOp) (s : Source) (a : ℕ) (reg : ℕ → ℕ)
      → Passes (alu op s)
      → inst.imm < 2 ^ 32
      → InRange32 op s (operand s inst reg)
      → Alu.alu32 op s a (operand s inst reg) ≢ AluResult.undefined
  unfolding check_opcode Alu.alu32
  alu32-defined add src_imm a reg h f r e = cc
  alu32-defined op src_imm a reg h f r e = ground arith
  alu32-defined add src_reg a reg h f r e = cc
  alu32-defined op src_reg a reg h f r e = ground arith

  alu64-defined :
      (op : AluOp) (s : Source) (a : ℕ) (reg : ℕ → ℕ)
      → Passes (alu64 op s)
      → inst.imm < 2 ^ 32
      → InRange64 op (operand s inst reg)
      → Alu.alu64 op s a (operand s inst reg) ≢ AluResult.undefined
  unfolding check_opcode Alu.alu64
  alu64-defined add src_imm a reg h f r e = cc
  alu64-defined op src_imm a reg h f r e = ground arith
  alu64-defined add src_reg a reg h f r e = cc
  alu64-defined op src_reg a reg h f r e = ground arith

check_opcode-call :
    (vm : Vm) (insts : List Inst) (i : ℕ) (inst : Inst)
    → check_opcode vm insts i inst (some call) ≡ valid tt
    → vm.ext_funcs inst.imm ≢ none
unfolding check_opcode
check_opcode-call vm insts i inst h e = ground arith

alu_outcome-defined :
    (cur : ℕ) (inst : Inst) (m : State) (r : AluResult)
    → r ≢ AluResult.undefined
    → alu_outcome cur inst m r ≢ Outcome.undefined
unfolding alu_outcome
alu_outcome-defined cur inst m (value v) h e = cc
alu_outcome-defined cur inst m div_by_zero h e = cc
alu_outcome-defined cur inst m undefined h e = h refl

module _ (c : Context) (i cur : ℕ) (inst : Inst) (m : State) where
  exec_opcode-defined :
      (o : Option Opcode)
      → check_opcode c.vm c.code i inst o ≡ valid tt
      → inst.imm < 2 ^ 32
      → m.pc ≡ i + 1
      → OperandInRange c o inst m.reg
      → exec_opcode c cur inst m o ≢ Outcome.undefined
  unfolding exec_opcode load_outcome store_outcome
  exec_opcode-defined none h f p r e = cc
  exec_opcode-defined (some (alu op s)) h f p r e =
      alu_outcome-defined cur inst m (Alu.alu32 op s (m.reg inst.dst) (operand s inst m.reg))
        (alu32-defined c.vm c.code i inst op s (m.reg inst.dst) m.reg h f r) e
  exec_opcode-defined (some (alu64 op s)) h f p r e =
      alu_outcome-defined cur inst m (Alu.alu64 op s (m.reg inst.dst) (operand s inst m.reg))
        (alu64-defined c.vm c.code i inst op s (m.reg inst.dst) m.reg h f r) e
  exec_opcode-defined (some lddw) h f p r e =
      let (second, at, _) = check_opcode-lddw c.vm c.code i inst h in
      let here : get_elem? c.code m.pc ≡ some second = rw p at in ground arith
  exec_opcode-defined (some call) h f p r e = ground (arith, check_opcode-call c.vm c.code i inst h)
  exec_opcode-defined (some (ldx z)) h f p (inl r) e = ground arith
  exec_opcode-defined (some (ldx z)) h f p (inr r) e = ground arith
  exec_opcode-defined (some (st z)) h f p (inl r) e = ground arith
  exec_opcode-defined (some (st z)) h f p (inr r) e = ground arith
  exec_opcode-defined (some (stx z)) h f p (inl r) e = ground arith
  exec_opcode-defined (some (stx z)) h f p (inr r) e = ground arith
  exec_opcode-defined (some o) h f p r e = ground arith

module _ (c : Context) (valid_code : IsValidated c.vm c.code) (fields : AreInsts c.code) where
  fetched-defined :
      (m : State) (inst : Inst)
      → get_elem? c.code m.pc ≡ some inst
      → inst.opcode ≢ 0
      → OperandInRange c (decode inst.opcode) inst m.reg
      → fetched c m (some inst) ≢ Outcome.undefined
  unfolding fetched
  fetched-defined m inst e o r =
      let after : State = record m { pc = u16 (m.pc + 1) } in
      let bound = get_elem?-lt c.code m.pc e in
      exec_opcode-defined c m.pc m.pc inst after (decode inst.opcode)
        (check_inst-check_opcode c.vm c.code m.pc inst (valid_code.checked m.pc inst e o))
        (AreInsts-get_elem? c.code m.pc fields e).imm_fits (omega (arith, valid_code.short)) r

  -- Let the code have passed `validate`, with fields of their C widths. A round at an instruction
  -- of it whose opcode is not 0 is not undefined in C, if the operand is in range: a shift below
  -- the width of what is shifted; for the 32-bit division or remainder by a register one that is 0
  -- or has low bits that are not; and for a load or store an access that the bounds check stops or
  -- that is of accessible memory.
  pub step-defined :
      (m : State) (inst : Inst)
      → IsPosition c.code m.pc
      → get_elem? c.code m.pc ≡ some inst
      → OperandInRange c (decode inst.opcode) inst m.reg
      → step c m ≢ Outcome.undefined
  unfolding step
  step-defined m inst p e r = rw e (fetched-defined m inst e (p.start inst e) r)
