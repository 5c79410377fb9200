-- ===== src/Vm/Exec/Registers.antt =====
-- About the frame pointer r10 in `ubpf_exec` (tools/ubpf/vm/ubpf_vm.c).
use ve_bpf.Base.{ℕ, ◌+◌, ◌≤◌, ◌≡◌, refl, ◌≢◌, ◌⊎◌, true, Option, none, some, List, arith, get_elem?}
use ve_bpf.Base.Word.{u16}
use ve_bpf.Ebpf.{Inst}
use ve_bpf.Ebpf.Opcode.{Opcode, decode}
use ve_bpf.Vm.State.{Vm}
use ve_bpf.Vm.Validate.{valid, check_inst, is_store}
use ve_bpf.Vm.Validate.Sound.{IsValidated}
use ve_bpf.Vm.Exec.Flow.{IsPosition}
use ve_bpf.Vm.Exec.{Context, State, next, exec_opcode, fetched, step}

exec_opcode-registers :
    (c : Context) (cur : ℕ) (inst : Inst) (m m' : State) (o : Option Opcode) (r : ℕ)
    → exec_opcode c cur inst m o ≡ next m'
    → (is_store o ≡ true) ⊎ (inst.dst ≢ r)
    → r ≢ 0
    → m'.reg r ≡ m.reg r
unfolding exec_opcode
exec_opcode-registers c cur inst m m' none r h w z = ground arith
exec_opcode-registers c cur inst m m' (some o) r h w z = ground arith

check_inst-dst :
    (vm : Vm) (insts : List Inst) (i : ℕ) (inst : Inst)
    → check_inst vm insts i inst ≡ valid tt
    → (is_store (decode inst.opcode) ≡ true) ⊎ (inst.dst ≤ 9)
unfolding check_inst
check_inst-dst vm insts i inst h = ground arith

module _ (c : Context) (valid_code : IsValidated c.vm c.code) (r : ℕ) (high : 10 ≤ r) where
  fetched-registers :
      (m m' : State) (o : Option Inst)
      → get_elem? c.code m.pc ≡ o
      → IsPosition c.code m.pc
      → fetched c m o ≡ next m'
      → m'.reg r ≡ m.reg r
  unfolding fetched
  fetched-registers m m' none e p h = cc
  fetched-registers m m' (some inst) e p h =
      exec_opcode-registers c m.pc inst (record m { pc = u16 (m.pc + 1) }) m' (decode inst.opcode) r
        h
        (ground (
          arith,
          check_inst-dst c.vm c.code m.pc inst (valid_code.checked m.pc inst e (p.start inst e)),
        ))
        (omega arith)

  -- Let the code have passed `validate`. A round from a position of it that is not on opcode 0
  -- keeps the frame pointer r10, and the registers behind it.
  pub step-registers :
      (m m' : State) → IsPosition c.code m.pc → step c m ≡ next m' → m'.reg r ≡ m.reg r
  unfolding step
  step-registers m m' p h = fetched-registers m m' (get_elem? c.code m.pc) refl p h
