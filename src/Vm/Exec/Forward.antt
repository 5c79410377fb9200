-- ===== src/Vm/Exec/Forward.antt =====
-- About the end of the loop of `ubpf_exec` (tools/ubpf/vm/ubpf_vm.c) in code without backward jumps.
use ve_bpf.Base.{
  ap, ◌∙◌, ℕ, zero, suc, ◌+◌, ◌-◌, ◌^◌, ◌<◌, ◌≡◌, refl, ◌≢◌, inl, inr, true, Option, none, some,
  List, arith, length, get_elem?, get_elem?-some, get_elem?-lt, Bool,
}
use ve_bpf.Base.Word.{u16, uint64_max}
use ve_bpf.Vm.Exec.Defined.{OperandInRange, step-defined}
use ve_bpf.Vm.Exec.Inside.{EndsInExit, step-inside, start-inside}
use ve_bpf.Ebpf.{Inst}
use ve_bpf.Ebpf.Encoding.RoundTrip.{AreInsts, AreInsts-get_elem?}
use ve_bpf.Ebpf.Opcode.{decode}
use ve_bpf.Vm.Validate.{jump_target}
use ve_bpf.Vm.Validate.Sound.{IsValidated, second_slot}
use ve_bpf.Vm.State.{Vm}
use ve_bpf.Vm.Memory.{Memory}
use ve_bpf.Vm.Exec.Reach.{Reaches, here, round, start-IsPosition}
use ve_bpf.Vm.Exec.Flow.{
  IsPosition, is_jump, Flows, exec_opcode-Flows, check_opcode-jump, check_inst-check_opcode,
  step-IsPosition,
}
use ve_bpf.Vm.Exec.{
  Context, State, Outcome, next, returned, faulted, fetched, step, run, exec, exec_code, context_of,
  entry_state, result_value,
}

-- No jump has a negative offset.
abbrev pub IsForward : List Inst → Type 0
IsForward code =
    (i : ℕ) (x : Inst)
    → get_elem? code i ≡ some x
    → is_jump (decode x.opcode) ≡ true
    → x.offset < 2 ^ 15

jump_target-forward : (i offset pc : ℕ) → jump_target i offset ≡ some pc → offset < 2 ^ 15 → i < pc
jump_target-forward i offset pc h f = ground arith

-- In every state that is reached, the instruction's operand is in range.
abbrev pub AreInRange : Context → State → Type 0
AreInRange c s =
    (t : State) (x : Inst)
    → Reaches c s t
    → get_elem? c.code t.pc ≡ some x
    → OperandInRange c (decode x.opcode) x t.reg

module _ (c : Context) (valid_code : IsValidated c.vm c.code) (fields : AreInsts c.code)
    (forward : IsForward c.code) where
  Flows-lt :
      (i : ℕ) (inst : Inst) (m m' : State)
      → get_elem? c.code i ≡ some inst
      → inst.opcode ≢ 0
      → m.pc ≡ u16 (i + 1)
      → Flows (decode inst.opcode) inst m m'
      → i < m'.pc
  Flows-lt i inst m m' e o p (inl (plain, same)) =
      omega (arith, get_elem?-lt c.code i e, valid_code.short)
  Flows-lt i inst m m' e o p (inr (inl (l, two))) =
      let (second, at, _) = second_slot c.vm c.code i inst (valid_code.checked i inst e o) (rw l) in
      omega (arith, get_elem?-lt c.code (i + 1) at, valid_code.short)
  Flows-lt i inst m m' e o p (inr (inr (j, l, to))) =
      let (x, at, nonzero, target) =
        check_opcode-jump c.vm c.code i inst (decode inst.opcode)
          (check_inst-check_opcode c.vm c.code i inst (valid_code.checked i inst e o)) j
          (get_elem?-lt c.code i e) valid_code.short
          (AreInsts-get_elem? c.code i fields e).offset_fits in
      rw (to, p)
        (jump_target-forward i inst.offset (u16 (u16 (i + 1) + inst.offset)) target
          (forward i inst e j))

  fetched-lt :
      (m m' : State) (o : Option Inst)
      → get_elem? c.code m.pc ≡ o
      → IsPosition c.code m.pc
      → fetched c m o ≡ next m'
      → m.pc < m'.pc
  unfolding fetched
  fetched-lt m m' none e p h = cc
  fetched-lt m m' (some inst) e p h =
      let after : State = record m { pc = u16 (m.pc + 1) } in
      Flows-lt m.pc inst after m' e (p.start inst e) refl
        (exec_opcode-Flows c m.pc inst after m' (decode inst.opcode) h)

  step-lt : (m m' : State) → IsPosition c.code m.pc → step c m ≡ next m' → m.pc < m'.pc
  unfolding step
  step-lt m m' p h = fetched-lt m m' (get_elem? c.code m.pc) refl p h

  run_outcome :
      (fuel : ℕ) (m : State) (o : Outcome)
      → step c m ≡ o
      → o ≢ Outcome.undefined
      → ((m' : State) → o ≡ next m' → (v : ℕ) × (result_value (run fuel c m') ≡ some v))
      → (v : ℕ) × (result_value (run (suc fuel) c m) ≡ some v)
  unfolding run
  run_outcome fuel m (next m') e d k = let (v, returns) = k m' refl in (v, rw (e, run) returns)
  run_outcome fuel m (returned v memory) e d k = (v, rw (e, run) refl)
  run_outcome fuel m (faulted f memory) e d k = (uint64_max, rw (e, run) refl)
  run_outcome fuel m Outcome.undefined e d k = absurd (d refl)

  module _ (ends : EndsInExit c.code) (s : State) (in_range : AreInRange c s) where
    pub run-ends :
        (fuel : ℕ) (m : State)
        → Reaches c s m
        → IsPosition c.code m.pc
        → m.pc < length c.code
        → length c.code - m.pc < fuel
        → (v : ℕ) × (result_value (run fuel c m) ≡ some v)
    run-ends zero m r p i h = absurd (omega arith)
    run-ends (suc fuel) m r p i h =
        let (inst, at) = get_elem?-some c.code m.pc i in
        run_outcome fuel m (step c m) refl
          (step-defined c valid_code fields m inst p at (in_range m inst r at))
          (λ m' e.
            run-ends fuel m' (round r e) (step-IsPosition c valid_code fields m m' p e)
              (step-inside c valid_code fields ends m m' p e)
              (omega (arith, step-lt m m' p e, step-inside c valid_code fields ends m m' p e)))

-- On code that has passed `validate`, has fields of their C widths, no jump with a negative
-- offset, and an exit as last instruction, where the operands of every round that is reached are
-- in the range that C asks for (as for `step-defined`), `ubpf_exec` returns a value: fuel for
-- one round more than there are instructions is enough. The value is that of an exit, or
-- UINT64_MAX after a fault.
pub exec-ends :
    (fuel : ℕ) (vm : Vm) (code : List Inst) (mem_base mem_len stack : ℕ) (accessible : ℕ → ℕ → Bool)
    (garbage : ℕ → ℕ) (memory : Memory)
    → vm.insts ≡ some code
    → IsValidated vm code
    → AreInsts code
    → IsForward code
    → EndsInExit code
    → AreInRange
        (context_of vm code mem_base mem_len stack accessible)
        (entry_state mem_base stack garbage memory)
    → length code < fuel
    → (v : ℕ) × (result_value (exec fuel vm mem_base mem_len stack accessible garbage memory)
        ≡ some v)
unfolding exec
exec-ends fuel vm code mem_base mem_len stack accessible garbage memory at v fields forward ends
      in_range enough =
    let c = context_of vm code mem_base mem_len stack accessible in
    let m = entry_state mem_base stack garbage memory in
    let same =
      ap
        (λ (o : Option (List Inst)).
          result_value (exec_code fuel vm o mem_base mem_len stack accessible garbage memory))
        at in
    let (value, returns) =
      run-ends c v fields forward ends m in_range fuel m here (start-IsPosition vm code v)
        (start-inside c v fields ends) (omega arith) in
    (value, same ∙ returns)
