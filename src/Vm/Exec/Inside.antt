-- ===== src/Vm/Exec/Inside.antt =====
-- About the program counter of `ubpf_exec` (tools/ubpf/vm/ubpf_vm.c) in code that `validate` passes and that
-- has an exit as its last instruction.
use mathlib.Core.Path.{subst}
use ve_bpf.Base.{
  ℕ, Bool, ◌+◌, ◌-◌, ◌<◌, ◌≡◌, refl, ◌≢◌, sym, ap, ◌∙◌, inl, inr, Option, none, some, List, arith,
  length, get_elem?, get_elem?-some, get_elem?-lt,
}
use ve_bpf.Base.Word.{u16}
use ve_bpf.Ebpf.{Inst}
use ve_bpf.Ebpf.Encoding.RoundTrip.{AreBytes, AreInsts, AreInsts-get_elem?, insts_of_bytes-AreInsts}
use ve_bpf.Ebpf.Opcode.{Opcode, exit, decode}
use ve_bpf.Vm.Validate.Sound.{IsValidated, second_slot}
use ve_bpf.Vm.Exec.Flow.{
  IsPosition, Flows, exec_opcode-Flows, check_opcode-jump, check_inst-check_opcode,
}
use ve_bpf.Vm.State.{Vm}
use ve_bpf.Vm.Load.{load, loaded}
use ve_bpf.Vm.Load.Laws.{load-loaded}
use ve_bpf.Vm.Exec.Reach.{
  Reaches, here, round, Reaches-IsPosition, Reaches-contained, start-IsPosition,
}
use ve_bpf.Vm.Exec.{Context, State, next, fetched, exec_opcode, step}

-- The last instruction is an exit.
abbrev pub EndsInExit : List Inst → Type 0
EndsInExit code = (x : Inst) × (get_elem? code (length code - 1) ≡ some x) × (x.opcode ≡ 0x95)

decode-exit : decode 0x95 ≡ some exit
unfolding decode
decode-exit = refl

module _ (c : Context) (valid_code : IsValidated c.vm c.code) (fields : AreInsts c.code)
    (ends : EndsInExit c.code) where
  exit-last :
      (i : ℕ) (inst : Inst)
      → get_elem? c.code i ≡ some inst
      → i + 1 ≡ length c.code
      → inst.opcode ≡ 0x95
  exit-last i inst e l =
      let (x, at, is) = ends in
      let index : length c.code - 1 ≡ i = omega arith in
      let here = subst (λ (n : ℕ). get_elem? c.code n ≡ some x) index at in
      let same : x ≡ inst = cc in ap (λ (y : Inst). y.opcode) (sym same) ∙ is

  not_exit :
      (i : ℕ) (inst : Inst) (m m' : State)
      → inst.opcode ≡ 0x95
      → exec_opcode c i inst m (decode inst.opcode) ≢ next m'
  unfolding exec_opcode
  not_exit i inst m m' e h =
      let is : decode inst.opcode ≡ some exit = ap decode e ∙ decode-exit in
      let ran = subst (λ (o : Option Opcode). exec_opcode c i inst m o ≡ next m') is h in cc

  Flows-inside :
      (i : ℕ) (inst : Inst) (m m' : State)
      → get_elem? c.code i ≡ some inst
      → inst.opcode ≢ 0
      → inst.opcode ≢ 0x95
      → m.pc ≡ u16 (i + 1)
      → Flows (decode inst.opcode) inst m m'
      → m'.pc < length c.code
  Flows-inside i inst m m' e o z p (inl (plain, same)) =
      let bound = get_elem?-lt c.code i e in
      let not_last : i + 1 ≢ length c.code = λ l. z (exit-last i inst e l) in
      omega (arith, valid_code.short, not_last)
  Flows-inside i inst m m' e o z p (inr (inl (l, two))) =
      let (second, at, opcode) =
        second_slot c.vm c.code i inst (valid_code.checked i inst e o) (rw l) in
      let bound = get_elem?-lt c.code (i + 1) at in
      let not_last : i + 1 + 1 ≢ length c.code =
        λ q. (let exits = exit-last (i + 1) second at q in omega arith) in
      omega (arith, valid_code.short, not_last)
  Flows-inside i inst m m' e o z p (inr (inr (j, l, to))) =
      let (x, at, _, _) =
        check_opcode-jump c.vm c.code i inst (decode inst.opcode)
          (check_inst-check_opcode c.vm c.code i inst (valid_code.checked i inst e o)) j
          (get_elem?-lt c.code i e) valid_code.short
          (AreInsts-get_elem? c.code i fields e).offset_fits in
      rw (to, p) (get_elem?-lt c.code (u16 (u16 (i + 1) + inst.offset)) at)

  fetched-inside :
      (m m' : State) (o : Option Inst)
      → get_elem? c.code m.pc ≡ o
      → IsPosition c.code m.pc
      → fetched c m o ≡ next m'
      → m'.pc < length c.code
  unfolding fetched
  fetched-inside m m' none e p h = absurd (cc)
  fetched-inside m m' (some inst) e p h =
      let after : State = record m { pc = u16 (m.pc + 1) } in
      Flows-inside m.pc inst after m' e (p.start inst e) (λ z. not_exit m.pc inst after m' z h) refl
        (exec_opcode-Flows c m.pc inst after m' (decode inst.opcode) h)

  pub step-inside :
      (m m' : State) → IsPosition c.code m.pc → step c m ≡ next m' → m'.pc < length c.code
  unfolding step
  step-inside m m' p h = fetched-inside m m' (get_elem? c.code m.pc) refl p h

  pub start-inside : 0 < length c.code
  start-inside = omega (arith, get_elem?-lt c.code (length c.code - 1) ends.1)

  pub Reaches-inside :
      {s t : State}
      → IsPosition c.code s.pc
      → s.pc < length c.code
      → Reaches c s t
      → t.pc < length c.code
  Reaches-inside p inside here = inside
  Reaches-inside p inside (round {t} {u} r h) =
      step-inside t u (Reaches-IsPosition c valid_code fields p r) h

-- An instruction is fetched that is not the second half of an `lddw`, and r10 is `frame`.
pub record Fetches (code : List Inst) (frame : ℕ) (m : State) : Type 0 where
  pub inst : Inst
  pub at : get_elem? code m.pc ≡ some inst
  pub start : inst.opcode ≢ 0
  pub frame_kept : m.reg 10 ≡ frame

pub Reaches-Fetches :
    (c : Context)
    → IsValidated c.vm c.code
    → AreInsts c.code
    → EndsInExit c.code
    → {s t : State} → s.pc ≡ 0
    → Reaches c s t
    → Fetches c.code (s.reg 10) t
Reaches-Fetches c v fields ends {s} {t} entry r =
    let first : 0 < length c.code = start-inside c v fields ends in
    let position : IsPosition c.code s.pc = rw entry (start-IsPosition c.vm c.code v) in
    let inside = Reaches-inside c v fields ends position (rw entry first) r in
    let (inst, at) = get_elem?-some c.code t.pc inside in
    let (place, frame) = Reaches-contained c v fields entry r in
    record { inst = inst; at = at; start = place.start inst at; frame_kept = frame }

-- Let `ubpf_load` have stored the code of the machine from a buffer of bytes, and let the last
-- instruction of the code be an exit. From a state with counter 0 on, after any number of
-- rounds, the counter is on an instruction of the code, whose opcode is not 0, so it is not the
-- second half of an `lddw`, and r10 has kept its value.
pub loaded-Fetches :
    (vm : Vm) (bytes : List ℕ) (allocated : Bool) (c : Context)
    → AreBytes bytes
    → load vm bytes allocated ≡ loaded c.vm
    → c.vm.insts ≡ some c.code
    → EndsInExit c.code
    → {s t : State} → s.pc ≡ 0
    → Reaches c s t
    → Fetches c.code (s.reg 10) t
loaded-Fetches vm bytes allocated c small h at ends e r =
    let (insts, _, read, validated, made) = load-loaded vm c.vm bytes allocated h in
    let same : insts ≡ c.code = let stored = ap (λ (v : Vm). v.insts) made in cc in
    Reaches-Fetches c (subst (IsValidated c.vm) same validated)
      (subst AreInsts same (insts_of_bytes-AreInsts bytes insts small read)) ends e r
