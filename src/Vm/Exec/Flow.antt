-- ===== src/Vm/Exec/Flow.antt =====
-- About the program counter of `ubpf_exec` (tools/ubpf/vm/ubpf_vm.c) in code that `validate` passes.
use ve_bpf.Base.{
  ℕ, ◌+◌, ◌^◌, ◌<◌, ◌≤◌, ◌≡◌, refl, ◌≢◌, ◌⊎◌, inl, inr, Bool, true, false, Option, none, some, List,
  arith, length, get_elem?, get_elem?-lt, get_elem?-some,
}
use ve_bpf.Base.Word.{u16}
use ve_bpf.Ebpf.{Inst}
use ve_bpf.Ebpf.Encoding.RoundTrip.{AreInsts, AreInsts-get_elem?}
use ve_bpf.Ebpf.Opcode.{Opcode, lddw, ja, jump, decode}
use ve_bpf.Vm.State.{Vm}
use ve_bpf.Vm.Validate.{
  valid, check_target, check_opcode, check_inst, is_lddw, width, jump_target, opcode_is_zero,
}
use ve_bpf.Vm.Validate.Sound.{IsValidated, second_slot}
use ve_bpf.Vm.Exec.{Context, State, next, exec_opcode, fetched, step}

abbrev pub is_jump : Option Opcode → Bool
is_jump (some ja) = true
is_jump (some (jump _ _)) = true
is_jump _ = false

-- Where a case of the `switch` leaves the program counter.
abbrev pub Flows : Option Opcode → Inst → State → State → Type 0
Flows o inst m m' =
    ((is_lddw o ≡ false) × (m'.pc ≡ m.pc))
    ⊎ ((o ≡ some lddw) × (m'.pc ≡ u16 (m.pc + 1)))
    ⊎ ((is_jump o ≡ true) × (is_lddw o ≡ false) × (m'.pc ≡ u16 (m.pc + inst.offset)))

pub exec_opcode-Flows :
    (c : Context) (cur : ℕ) (inst : Inst) (m m' : State) (o : Option Opcode)
    → exec_opcode c cur inst m o ≡ next m'
    → Flows o inst m m'
unfolding exec_opcode
exec_opcode-Flows c cur inst m m' none h = ground arith
exec_opcode-Flows c cur inst m m' (some lddw) h = ground arith
exec_opcode-Flows c cur inst m m' (some o) h = ground arith

check_target-inside :
    (insts : List Inst) (i : ℕ) (target : Option ℕ)
    → check_target insts i target ≡ valid tt
    → (pc : ℕ) × (target ≡ some pc)
      × (pc < length insts)
      × (opcode_is_zero (get_elem? insts pc) ≡ false)
unfolding check_target
check_target-inside insts i none h = cc
check_target-inside insts i (some pc) h = (pc, refl, ground arith, ground arith)

-- The addition on `int` in `validate` and the one on `uint16_t` in `ubpf_exec` agree.
jump_target-wraps :
    (i offset pc : ℕ)
    → jump_target i offset ≡ some pc
    → pc < 2 ^ 16
    → i < 2 ^ 16
    → offset < 2 ^ 16
    → u16 (u16 (i + 1) + offset) ≡ pc
jump_target-wraps i offset pc h a b f = ground arith

module _ (vm : Vm) (insts : List Inst) (i : ℕ) (inst : Inst) where
  -- The start of an instruction of the code, where the sum on `int` goes too.
  abbrev pub IsTarget : ℕ → Type 0
  IsTarget pc =
      (x : Inst) × (get_elem? insts pc ≡ some x)
      × (x.opcode ≢ 0)
      × (jump_target i inst.offset ≡ some pc)

  check_target-IsTarget :
      check_target insts i (jump_target i inst.offset) ≡ valid tt
      → i < length insts
      → length insts < 2 ^ 16
      → inst.offset < 2 ^ 16
      → IsTarget (u16 (u16 (i + 1) + inst.offset))
  check_target-IsTarget h a b f =
      let (pc, at, inside, nonzero) = check_target-inside insts i (jump_target i inst.offset) h in
      let (x, found) = get_elem?-some insts pc inside in
      let wraps = jump_target-wraps i inst.offset pc at (omega arith) (omega arith) f in
      rw wraps (x, found, (λ z. ground arith), at)

  -- A jump that `validate` has passed goes to the start of an instruction.
  pub check_opcode-jump :
      (o : Option Opcode)
      → check_opcode vm insts i inst o ≡ valid tt
      → is_jump o ≡ true
      → i < length insts
      → length insts < 2 ^ 16
      → inst.offset < 2 ^ 16
      → IsTarget (u16 (u16 (i + 1) + inst.offset))
  unfolding check_opcode
  check_opcode-jump none h j a b f = cc
  check_opcode-jump (some ja) h j a b f = check_target-IsTarget (ground arith) a b f
  check_opcode-jump (some (jump k s)) h j a b f = check_target-IsTarget (ground arith) a b f
  check_opcode-jump (some o) h j a b f = cc

-- The program counter is at the end of the code or at the start of an instruction.
pub record IsPosition (code : List Inst) (pc : ℕ) : Type 0 where
  pub within : pc ≤ length code
  pub start : (x : Inst) → get_elem? code pc ≡ some x → x.opcode ≢ 0

pub check_inst-check_opcode :
    (vm : Vm) (insts : List Inst) (i : ℕ) (inst : Inst)
    → check_inst vm insts i inst ≡ valid tt
    → check_opcode vm insts i inst (decode inst.opcode) ≡ valid tt
unfolding check_inst
check_inst-check_opcode vm insts i inst h = ground arith

module _ (c : Context) (valid_code : IsValidated c.vm c.code) (fields : AreInsts c.code) where
  moved :
      (i : ℕ) (inst : Inst) (pc : ℕ)
      → get_elem? c.code i ≡ some inst
      → inst.opcode ≢ 0
      → pc ≡ i + width inst
      → pc ≤ length c.code
      → IsPosition c.code pc
  moved i inst pc e o p w = record {
    within = w;
    start = λ x f. valid_code.follows i inst x e o (rw p at f);
  }

  -- Where an instruction at a start leaves the counter.
  Flows-IsPosition :
      (i : ℕ) (inst : Inst) (m m' : State)
      → get_elem? c.code i ≡ some inst
      → inst.opcode ≢ 0
      → m.pc ≡ u16 (i + 1)
      → Flows (decode inst.opcode) inst m m'
      → IsPosition c.code m'.pc
  Flows-IsPosition i inst m m' e o p (inl (plain, same)) =
      let bound = get_elem?-lt c.code i e in
      let one : width inst ≡ 1 = rw plain in
      moved i inst m'.pc e o (omega (arith, valid_code.short)) (omega (arith, valid_code.short))
  Flows-IsPosition i inst m m' e o p (inr (inl (l, two))) =
      let is : is_lddw (decode inst.opcode) ≡ true = rw l in
      let both : width inst ≡ 2 = rw is in
      let (second, at, _) = second_slot c.vm c.code i inst (valid_code.checked i inst e o) is in
      let bound = get_elem?-lt c.code (i + 1) at in
      moved i inst m'.pc e o (omega (arith, valid_code.short)) (omega (arith, valid_code.short))
  Flows-IsPosition i inst m m' e o p (inr (inr (j, l, to))) =
      let bound = get_elem?-lt c.code i e in
      let checked = check_inst-check_opcode c.vm c.code i inst (valid_code.checked i inst e o) in
      let fits = AreInsts-get_elem? c.code i fields e in
      let (x, at, nonzero, _) =
        check_opcode-jump c.vm c.code i inst (decode inst.opcode) checked j bound valid_code.short
          fits.offset_fits in
      let here : m'.pc ≡ u16 (u16 (i + 1) + inst.offset) = rw (← p) to in
      record {
        within = omega (arith, get_elem?-lt c.code (u16 (u16 (i + 1) + inst.offset)) at);
        start = λ y f z. nonzero (ground (arith, rw here at f));
      }

  fetched-IsPosition :
      (m m' : State) (o : Option Inst)
      → get_elem? c.code m.pc ≡ o
      → IsPosition c.code m.pc
      → fetched c m o ≡ next m'
      → IsPosition c.code m'.pc
  unfolding fetched
  fetched-IsPosition m m' none e p h = cc
  fetched-IsPosition m m' (some inst) e p h =
      let after : State = record m { pc = u16 (m.pc + 1) } in
      Flows-IsPosition m.pc inst after m' e (p.start inst e) refl
        (exec_opcode-Flows c m.pc inst after m' (decode inst.opcode) h)

  -- A round of the loop from such a position ends in one.
  pub step-IsPosition :
      (m m' : State) → IsPosition c.code m.pc → step c m ≡ next m' → IsPosition c.code m'.pc
  unfolding step
  step-IsPosition m m' p h = fetched-IsPosition m m' (get_elem? c.code m.pc) refl p h
