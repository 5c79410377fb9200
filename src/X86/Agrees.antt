-- ===== src/X86/Agrees.antt =====
-- The code that `translate` (tools/ubpf/vm/ubpf_jit_x86_64.c) writes for an instruction that changes a
-- register, against `ubpf_exec` (tools/ubpf/vm/ubpf_vm.c).
use ve_bpf.Base.{ℕ, ◌+◌, ◌^◌, ◌<◌, ◌≡◌, refl, true, ◌==◌, arith, List, some, get_elem?}
use ve_bpf.Ebpf.{Inst}
use ve_bpf.Ebpf.Opcode.{
  src_imm, src_reg, Opcode, alu, alu64, neg, neg64, be, lddw, le, ja, call, exit, ldx, stx, jump,
}
use ve_bpf.Vm.State.{Vm}
use ve_bpf.Vm.Exec.{Context, State, next, exec_opcode}
use ve_bpf.Jit.State.{Jit, emitted}
use ve_bpf.Jit.Translate.{translate_opcode}
use ve_bpf.X86.Machine.{Machine}
use ve_bpf.X86.Computes.{IsMap, Holds, Computes, is_covered}
use ve_bpf.X86.Cases.{
  alu64_reg_case, alu64_imm_case, alu32_imm_case, alu32_reg_case, be_case, lddw_case, neg_case,
  neg64_case,
}

module _ (vm : Vm) (insts : List Inst) (c : Context) (i cur : ℕ) (inst : Inst) (map : ℕ → ℕ)
    (st st' : State) (m : Machine) (s s' : Jit) (is_map : IsMap map) (same : Holds map st.reg m)
    (words : (r : ℕ) → st.reg r < 2 ^ 64) (imm : inst.imm < 2 ^ 32) (pd : inst.dst < 11)
    (ps : inst.src < 11) where
  pub covered :
      (op : Opcode)
      → is_covered inst st.reg op ≡ true
      → c.code ≡ insts
      → st.pc ≡ i + 1
      → exec_opcode c cur inst st (some op) ≡ next st'
      → translate_opcode vm insts i inst (map inst.src) (map inst.dst) (some op) s ≡ emitted s'
      → Computes s s' m map st'.reg
  covered (alu64 op src_imm) f code at run emits =
      alu64_imm_case vm insts c i cur inst map st st' m s s' is_map same words imm pd ps op f run
        emits
  covered (alu64 op src_reg) f code at run emits =
      alu64_reg_case vm insts c i cur inst map st st' m s s' is_map same words imm pd ps op f run
        emits
  covered (alu op src_imm) f code at run emits =
      alu32_imm_case vm insts c i cur inst map st st' m s s' is_map same words imm pd ps op
        (ground arith) (ground arith) run emits
  covered (alu op src_reg) f code at run emits =
      alu32_reg_case vm insts c i cur inst map st st' m s s' is_map same words imm pd ps op
        (ground arith) (ground arith) run emits
  covered neg f code at run emits =
      neg_case vm insts c i cur inst map st st' m s s' is_map same words imm pd ps run emits
  covered neg64 f code at run emits =
      neg64_case vm insts c i cur inst map st st' m s s' is_map same words imm pd ps run emits
  covered be f code at run emits =
      be_case vm insts c i cur inst map st st' m s s' is_map same words imm pd ps (inst.imm == 64)
        (ground arith) run emits
  covered lddw f code at run emits =
      lddw_case vm insts c i cur inst map st st' m s s' is_map same words imm pd ps code at
        (get_elem? insts (i + 1)) refl run emits
  covered le f code at run emits = absurd cc
  covered ja f code at run emits = absurd cc
  covered call f code at run emits = absurd cc
  covered exit f code at run emits = absurd cc
  covered (ldx z) f code at run emits = absurd cc
  covered (Opcode.st z) f code at run emits = absurd cc
  covered (stx z) f code at run emits = absurd cc
  covered (jump k z) f code at run emits = absurd cc
