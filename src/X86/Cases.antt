-- ===== src/X86/Cases.antt =====
-- The cases of `translate` (tools/ubpf/vm/ubpf_jit_x86_64.c) that change one register.
use ve_bpf.Base.{
  ℕ, ◌+◌, ◌*◌, ◌^◌, ◌<◌, ◌≡◌, refl, sym, ◌∙◌, ap, Bool, true, false, arith, if◌then◌else◌, ◌&&◌,
  not, List, Option, none, some, get_elem?, bit_or,
}
use mathlib.Core.Path.{subst}
use ve_bpf.Base.Bits.{bit_or-lt}
use ve_bpf.Base.Word.{u64}
use ve_bpf.Ebpf.{Inst}
use ve_bpf.Ebpf.Opcode.{src_imm, src_reg, AluOp, alu, alu64, neg, neg64, be, lddw}
use ve_bpf.Vm.Memory.{update}
use ve_bpf.Vm.State.{Vm}
use ve_bpf.Vm.Alu.{AluResult, value, neg32, to_be, swap_bytes}
use ve_bpf.Vm.Alu
use ve_bpf.Vm.Exec.{lddw_outcome, Context, State, next, operand, exec_opcode}
use ve_bpf.Jit.State.{Jit, emitted, Emit}
use ve_bpf.Jit.Translate.{emit_be, emit_lddw, translate_opcode}
use ve_bpf.X86.Machine.{Machine}
use ve_bpf.X86.Sets.{Sets}
use ve_bpf.X86.Emitted.{Sets-negate, Sets-load_imm, Sets-swap}
use ve_bpf.X86.Values.{negate64, negate32}
use ve_bpf.X86.Alu.{is_direct, is_mov, fits, alu64_imm, alu64_reg, alu32_imm, alu32_reg}
use ve_bpf.X86.Computes.{IsMap, Holds, Computes, Sets-Computes, alu_outcome-next}

module _ (vm : Vm) (insts : List Inst) (c : Context) (i cur : ℕ) (inst : Inst) (map : ℕ → ℕ)
    (st st' : State) (m : Machine) (s s' : Jit) (is_map : IsMap map) (same : Holds map st.reg m)
    (words : (r : ℕ) → st.reg r < 2 ^ 64) (imm : inst.imm < 2 ^ 32) (pd : inst.dst < 11)
    (ps : inst.src < 11) where
  word : (r : ℕ) → r < 11 → m.reg (map r) < 2 ^ 64
  word r h = subst (λ (x : ℕ). x < 2 ^ 64) (sym (same.holds r h)) (words r)

  computed :
      (e : Emit) (v : ℕ)
      → e s ≡ emitted s'
      → update st.reg inst.dst v ≡ st'.reg
      → Sets e m (map inst.dst) v
      → Computes s s' m map st'.reg
  computed e v emits set sets =
      subst (Computes s s' m map) set
        (Sets-Computes e s s' m map st.reg inst.dst v is_map same pd emits sets)

  pub alu64_reg_case :
      (op : AluOp)
      → is_direct op ≡ true
      → exec_opcode c cur inst st (some (alu64 op src_reg)) ≡ next st'
      → translate_opcode vm insts i inst (map inst.src) (map inst.dst) (some (alu64 op src_reg)) s
        ≡ emitted s'
      → Computes s s' m map st'.reg
  unfolding exec_opcode translate_opcode
  alu64_reg_case op d run emits =
      let (v, result, set) = alu_outcome-next cur inst st st' _ run in
      computed _ v emits (ap (λ (t : State). t.reg) set) (
        alu64_reg inst (map inst.src) (map inst.dst) m v imm (is_map.within inst.src ps)
          (is_map.within inst.dst pd) (is_map.not_rcx inst.dst pd) (word inst.dst pd)
          (word inst.src ps) i op d refl
          (rw (same.holds inst.dst pd, same.holds inst.src ps) result))

  pub alu64_imm_case :
      (op : AluOp)
      → is_direct op ≡ true
      → exec_opcode c cur inst st (some (alu64 op src_imm)) ≡ next st'
      → translate_opcode vm insts i inst (map inst.src) (map inst.dst) (some (alu64 op src_imm)) s
        ≡ emitted s'
      → Computes s s' m map st'.reg
  unfolding exec_opcode translate_opcode
  alu64_imm_case op d run emits =
      let (v, result, set) = alu_outcome-next cur inst st st' _ run in
      computed _ v emits (ap (λ (t : State). t.reg) set) (
        alu64_imm inst (map inst.src) (map inst.dst) m v imm (is_map.within inst.src ps)
          (is_map.within inst.dst pd) (is_map.not_rcx inst.dst pd) (word inst.dst pd)
          (word inst.src ps) i op d refl (rw (same.holds inst.dst pd) result))

  pub alu32_imm_case :
      (op : AluOp)
      → is_direct op ≡ true
      → fits op (operand src_imm inst st.reg) ≡ true
      → exec_opcode c cur inst st (some (alu op src_imm)) ≡ next st'
      → translate_opcode vm insts i inst (map inst.src) (map inst.dst) (some (alu op src_imm)) s
        ≡ emitted s'
      → Computes s s' m map st'.reg
  unfolding exec_opcode translate_opcode
  alu32_imm_case op d f run emits =
      let (v, result, set) = alu_outcome-next cur inst st st' _ run in
      computed _ v emits (ap (λ (t : State). t.reg) set) (
        alu32_imm inst (map inst.src) (map inst.dst) m v imm (is_map.within inst.src ps)
          (is_map.within inst.dst pd) (is_map.not_rcx inst.dst pd) (word inst.dst pd)
          (word inst.src ps) i op d f (rw (same.holds inst.dst pd) result))

  pub alu32_reg_case :
      (op : AluOp)
      → (is_direct op && not (is_mov op)) ≡ true
      → fits op (operand src_reg inst st.reg) ≡ true
      → exec_opcode c cur inst st (some (alu op src_reg)) ≡ next st'
      → translate_opcode vm insts i inst (map inst.src) (map inst.dst) (some (alu op src_reg)) s
        ≡ emitted s'
      → Computes s s' m map st'.reg
  unfolding exec_opcode translate_opcode
  alu32_reg_case op d f run emits =
      let (v, result, set) = alu_outcome-next cur inst st st' _ run in
      computed _ v emits (ap (λ (t : State). t.reg) set) (
        alu32_reg inst (map inst.src) (map inst.dst) m v imm (is_map.within inst.src ps)
          (is_map.within inst.dst pd) (is_map.not_rcx inst.dst pd) (word inst.dst pd)
          (word inst.src ps) i op d (rw (same.holds inst.src ps) f)
          (rw (same.holds inst.dst pd, same.holds inst.src ps) result))

  pub be_case :
      (w : Bool)
      → inst.imm ≡ (if w then 64 else 32)
      → exec_opcode c cur inst st (some be) ≡ next st'
      → translate_opcode vm insts i inst (map inst.src) (map inst.dst) (some be) s ≡ emitted s'
      → Computes s s' m map st'.reg
  unfolding exec_opcode translate_opcode emit_be to_be swap_bytes
  be_case false n run emits =
      let d = map inst.dst in
      let code = subst (λ (x : ℕ). emit_be x d s ≡ emitted s') n emits in
      computed _ (to_be inst.imm (st.reg inst.dst)) code (cc) (
        Sets-swap d (is_map.within inst.dst pd) m false (to_be inst.imm (st.reg inst.dst))
          (rw (n, same.holds inst.dst pd) refl))
  be_case true n run emits =
      let d = map inst.dst in
      let code = subst (λ (x : ℕ). emit_be x d s ≡ emitted s') n emits in
      computed _ (to_be inst.imm (st.reg inst.dst)) code (cc) (
        Sets-swap d (is_map.within inst.dst pd) m true (to_be inst.imm (st.reg inst.dst))
          (rw (n, same.holds inst.dst pd) refl))

  pub lddw_case :
      c.code ≡ insts
      → st.pc ≡ i + 1
      → (second : Option Inst) → get_elem? insts (i + 1) ≡ second
      → exec_opcode c cur inst st (some lddw) ≡ next st'
      → translate_opcode vm insts i inst (map inst.src) (map inst.dst) (some lddw) s ≡ emitted s'
      → Computes s s' m map st'.reg
  unfolding exec_opcode translate_opcode emit_lddw lddw_outcome
  lddw_case code at none e run emits =
      let fetched =
        subst (λ (x : Option Inst). lddw_outcome inst st x ≡ next st')
          (ap (λ (l : List Inst). get_elem? l st.pc) code ∙ ap (get_elem? insts) at ∙ e) run in
      absurd cc
  lddw_case code at (some second) e run emits =
      let v = bit_or inst.imm (u64 (second.imm * 2 ^ 32)) in
      let small : v < 2 ^ 64 =
        bit_or-lt 64 inst.imm (u64 (second.imm * 2 ^ 32)) (omega arith) (omega arith) in
      let fetched =
        subst (λ (x : Option Inst). lddw_outcome inst st x ≡ next st')
          (ap (λ (l : List Inst). get_elem? l st.pc) code ∙ ap (get_elem? insts) at ∙ e) run in
      let code' =
        subst (λ (x : Option Inst). emit_lddw inst (map inst.dst) x s ≡ emitted s') e emits in
      computed _ v code' (cc) (Sets-load_imm (map inst.dst) (is_map.within inst.dst pd) m v small)

  pub neg_case :
      exec_opcode c cur inst st (some neg) ≡ next st'
      → translate_opcode vm insts i inst (map inst.src) (map inst.dst) (some neg) s ≡ emitted s'
      → Computes s s' m map st'.reg
  unfolding exec_opcode translate_opcode
  neg_case run emits = computed _ (neg32 (st.reg inst.dst)) emits (cc) (
      Sets-negate false (map inst.dst) (is_map.within inst.dst pd) m (neg32 (st.reg inst.dst))
        (rw (same.holds inst.dst pd) (negate32 (st.reg inst.dst) (words inst.dst))))

  pub neg64_case :
      exec_opcode c cur inst st (some neg64) ≡ next st'
      → translate_opcode vm insts i inst (map inst.src) (map inst.dst) (some neg64) s ≡ emitted s'
      → Computes s s' m map st'.reg
  unfolding exec_opcode translate_opcode
  neg64_case run emits = computed _ (Alu.neg64 (st.reg inst.dst)) emits (cc) (
      Sets-negate true (map inst.dst) (is_map.within inst.dst pd) m (Alu.neg64 (st.reg inst.dst))
        (rw (same.holds inst.dst pd) (negate64 (st.reg inst.dst) (words inst.dst))))
