-- ===== src/X86/Branch.antt =====
-- The code that `translate` (tools/ubpf/vm/ubpf_jit_x86_64.c) writes for a stretch of instructions and the
-- conditional jump behind it, against the rounds of `ubpf_exec` (tools/ubpf/vm/ubpf_vm.c).
use mathlib.Core.Path.{subst}
use mathlib.Core.List.{append_assoc}
use ve_bpf.Base.{
  ℕ, ◌+◌, ◌%◌, ◌^◌, ◌<◌, ◌≡◌, refl, sym, ◌∙◌, ap, Bool, true, false, if◌then◌else◌, List, [], ◌∷◌,
  ◌++◌, Option, some, get_elem?, length,
}
use ve_bpf.Base.Word.{u16}
use ve_bpf.Ebpf.{Inst}
use ve_bpf.Ebpf.Encoding.{to_bytes}
use ve_bpf.Ebpf.Opcode.{Opcode, Source, Cond, decode, jump}
use ve_bpf.Ebpf.Encoding.RoundTrip.{AreInsts, AreInsts-get_elem?}
use ve_bpf.Vm.Validate.{is_lddw}
use ve_bpf.Vm.Exec.{
  branch, Context, State, next, exec_opcode, step, fetched, condition, jump_operand,
}
use ve_bpf.Vm.Exec.Words.{AreWords, CallsReturnWords, step-AreWords}
use ve_bpf.Jit.State.{Jit, emitted}
use ve_bpf.Jit.Keeps.{>>-emitted}
use ve_bpf.Jit.Translate.{
  Host, map_register, set_pc_loc, translate_opcode, translate_mapped, translate_inst,
  translate_from, jcc_code,
}
use ve_bpf.X86.Format.{read, jump_if}
use ve_bpf.X86.Machine.{Machine, Flags, Runs, Runs-trans, taken}
use ve_bpf.X86.Computes.{IsMap, Holds, Computes}
use ve_bpf.X86.Block.{
  Straight, done, one_slot, two_slots, Straight-Computes, marked_pc_loc, map_register-some,
}
use ve_bpf.X86.Stretch.{Straight-emitted}
use ve_bpf.X86.Jumps.{same_immediate, jump-Decides}

-- The code between the two states of the compiler takes the processor from `m` to the registers `reg` and
-- to a conditional jump, which is taken if `b`.
pub record Branches (s s' : Jit) (m : Machine) (map reg : ℕ → ℕ) (b : Bool) : Type 0 where
  pub bytes : List ℕ
  pub code : ℕ
  pub written : s'.buf ≡ s.buf ++ (bytes ++ 0x0f ∷ code ∷ to_bytes 4 0)
  pub after : Machine
  pub flags : Flags
  pub compared : after.flags ≡ some flags
  pub runs : (rest : List ℕ) → Runs (bytes ++ rest) m rest after
  pub result : Holds map reg after
  pub jumps :
      (rel : ℕ) (rest : List ℕ)
      → rel < 2 ^ 32
      → read (0x0f ∷ code ∷ to_bytes 4 rel ++ rest) ≡ some (jump_if (code % 16) rel, rest)
  pub decides : taken (code % 16) flags ≡ b

Computes-Branches :
    {s t s' : Jit} {m : Machine} {map reg : ℕ → ℕ} {b : Bool} (p : Computes s t m map reg)
    → Branches t s' p.after map reg b
    → Branches s s' m map reg b
Computes-Branches {s = s} {m = m} p q = record {
  bytes = p.bytes ++ q.bytes;
  code = q.code;
  written =
      q.written
      ∙ ap (λ (l : List ℕ). l ++ (q.bytes ++ 0x0f ∷ q.code ∷ to_bytes 4 0)) p.written
      ∙ append_assoc s.buf p.bytes (q.bytes ++ 0x0f ∷ q.code ∷ to_bytes 4 0)
      ∙ ap (λ (l : List ℕ). s.buf ++ l)
          (sym (append_assoc p.bytes q.bytes (0x0f ∷ q.code ∷ to_bytes 4 0)));
  after = q.after;
  flags = q.flags;
  compared = q.compared;
  runs = λ rest.
      subst (λ (l : List ℕ). Runs l m rest q.after) (sym (append_assoc p.bytes q.bytes rest))
        (Runs-trans (p.runs (q.bytes ++ rest)) (q.runs rest));
  result = q.result;
  jumps = q.jumps;
  decides = q.decides;
}

jump_outcome :
    (b : Bool) (inst : Inst) (m m' : State)
    → next (if b then branch inst m else m) ≡ next m'
    → (m'.reg ≡ m.reg) × (m'.pc ≡ (if b then u16 (m.pc + inst.offset) else m.pc))
jump_outcome true inst m m' e =
    let same : branch inst m ≡ m' = cc in
    (ap (λ (x : State). x.reg) (sym same), ap (λ (x : State). x.pc) (sym same))
jump_outcome false inst m m' e =
    let same : m ≡ m' = cc in
    (ap (λ (x : State). x.reg) (sym same), ap (λ (x : State). x.pc) (sym same))

module _ (host : Host) (c : Context) (is_map : IsMap host.register_map) (fields : AreInsts c.code)
    (short : length c.code < 2 ^ 16) where
  jump_mapped :
      (inst : Inst) (k : Cond) (o : Source) (dst src : Option ℕ) (st : State) (m : Machine)
      (s s' : Jit)
      → map_register host.register_map inst.dst ≡ dst
      → map_register host.register_map inst.src ≡ src
      → get_elem? c.code st.pc ≡ some inst
      → decode inst.opcode ≡ some (jump k o)
      → same_immediate k o inst ≡ true
      → Holds host.register_map st.reg m
      → ((r : ℕ) → st.reg r < 2 ^ 64)
      → translate_mapped c.vm c.code st.pc inst dst src s ≡ emitted s'
      → Branches s s' m host.register_map st.reg
          (condition k (st.reg inst.dst) (jump_operand k o inst st.reg))
  jump_mapped inst k o (some dst) (some src) st m s s' a b at is_op f same words emits =
      let (pd, to_dst) = map_register-some host.register_map inst.dst dst a in
      let (ps, to_src) = map_register-some host.register_map inst.src src b in
      let fits = AreInsts-get_elem? c.code st.pc fields at in
      let written =
        subst
          (λ (p : Option Opcode). translate_opcode c.vm c.code st.pc inst src dst p s ≡ emitted s')
          is_op emits in
      let renamed =
        subst
          (λ (y : ℕ).
            translate_opcode c.vm c.code st.pc inst src y (some (jump k o)) s ≡ emitted s')
          to_dst written in
      let code =
        subst
          (λ (x : ℕ).
            translate_opcode c.vm c.code st.pc inst x (host.register_map inst.dst) (some (jump k o))
              s
            ≡ emitted s')
          to_src renamed in
      let test =
        jump-Decides c.vm c.code st.pc inst host.register_map st.reg m is_map same words
          fits.imm_fits ps pd k o f in
      record {
        bytes = test.bytes;
        code = jcc_code k;
        written = test.written.writes s s' code;
        after = record m { flags = some test.flags };
        flags = test.flags;
        compared = refl;
        runs = test.runs;
        result = record { holds = same.holds };
        jumps = test.jumps;
        decides = test.decides;
      }
  jump_mapped inst k o _ _ st m s s' a b at is_op f same words emits = absurd cc

  jump_translated :
      (inst : Inst) (k : Cond) (o : Source) (st : State) (m : Machine) (s s' : Jit)
      → get_elem? c.code st.pc ≡ some inst
      → decode inst.opcode ≡ some (jump k o)
      → same_immediate k o inst ≡ true
      → Holds host.register_map st.reg m
      → ((r : ℕ) → st.reg r < 2 ^ 64)
      → translate_inst host c.vm c.code st.pc inst s ≡ emitted s'
      → Branches s s' m host.register_map st.reg
          (condition k (st.reg inst.dst) (jump_operand k o inst st.reg))
  unfolding translate_inst
  jump_translated inst k o st m s s' at is_op f same words emits =
      let dst = map_register host.register_map inst.dst in
      let src = map_register host.register_map inst.src in
      let (t, marked, written) =
        >>-emitted (set_pc_loc st.pc) (translate_mapped c.vm c.code st.pc inst dst src) s s'
          emits in
      Computes-Branches (marked_pc_loc host.register_map st.reg st.pc m s t same marked)
        (jump_mapped inst k o dst src st m t s' refl refl at is_op f same words written)

  jumped :
      (inst : Inst) (k : Cond) (o : Source) (st st' : State)
      → get_elem? c.code st.pc ≡ some inst
      → decode inst.opcode ≡ some (jump k o)
      → step c st ≡ next st'
      → (st'.reg ≡ st.reg)
        × (st'.pc ≡ (
            if condition k (st.reg inst.dst) (jump_operand k o inst st.reg)
            then u16 (u16 (st.pc + 1) + inst.offset)
            else u16 (st.pc + 1)))
  unfolding step fetched exec_opcode
  jumped inst k o st st' at is_op run =
      let round = subst (λ (p : Option Inst). fetched c st p ≡ next st') at run in
      let executed =
        subst
          (λ (p : Option Opcode).
            exec_opcode c st.pc inst (record st { pc = u16 (st.pc + 1) }) p ≡ next st')
          is_op round in
      jump_outcome (condition k (st.reg inst.dst) (jump_operand k o inst st.reg)) inst
        (record st { pc = u16 (st.pc + 1) }) st' executed

  module _ (calls : CallsReturnWords c.vm) where
    Straight-AreWords :
        {block : List Inst} {st st' : State} → Straight c block st st' → AreWords st → AreWords st'
    Straight-AreWords done words = words
    Straight-AreWords (one_slot {st = st} {mid = mid} fetch is_op one f run rest) words =
        Straight-AreWords rest (step-AreWords c fields calls st mid words run)
    Straight-AreWords (two_slots {st = st} {mid = mid} fetch there is_op run rest) words =
        Straight-AreWords rest (step-AreWords c fields calls st mid words run)

    -- In code and with functions and a map as for `Straight-Computes`, let rounds of `ubpf_exec`
    -- execute a stretch of instructions that `is_covered` names, from 64-bit words in the registers
    -- and bytes in memory, and then a conditional jump; an unsigned comparison with an immediate
    -- must be with one below 2 ^ 31. Let `translate` write the code of the stretch and the jump.
    -- From a state of the processor that holds the registers, this code runs to an instruction that
    -- jumps on a condition, whatever number stands in its field, and leaves the processor holding
    -- the registers that the rounds leave; and the condition holds in the flags exactly if the round
    -- of the jump adds its offset to the counter.
    pub Straight-Branches :
        (block : List Inst) (inst : Inst) (k : Cond) (o : Source) (i : ℕ) (st st' end : State)
        (m : Machine) (s s' : Jit)
        → Straight c block st st'
        → st.pc ≡ i
        → AreWords st
        → Holds host.register_map st.reg m
        → get_elem? c.code st'.pc ≡ some inst
        → decode inst.opcode ≡ some (jump k o)
        → same_immediate k o inst ≡ true
        → step c st' ≡ next end
        → translate_from host c.vm c.code false i (block ++ inst ∷ []) s ≡ emitted s'
        → (b : Bool) × Branches s s' m host.register_map end.reg b
          × (end.pc ≡ (if b then u16 (u16 (st'.pc + 1) + inst.offset) else u16 (st'.pc + 1)))
    unfolding translate_from
    Straight-Branches block inst k o i st st' end m s s' rounds at words same fetch is_op f run
          emits =
        let (t, first, last) =
          Straight-emitted host c is_map fields short block (inst ∷ []) i st st' s s' rounds at
            emits in
        let (u, here, stop) =
          >>-emitted (translate_inst host c.vm c.code st'.pc inst)
            (translate_from host c.vm c.code (is_lddw (decode inst.opcode)) (st'.pc + 1) []) t s'
            last in
        let only : u ≡ s' = cc in
        let head =
          Straight-Computes host c is_map fields short calls block i st st' m s t rounds at words
            same first in
        let now = Straight-AreWords rounds words in
        let (kept, moved) = jumped inst k o st' end fetch is_op run in
        let whole = Computes-Branches head (
          jump_translated inst k o st' head.after t u fetch is_op f head.result now.registers
            here) in
        let b = condition k (st'.reg inst.dst) (jump_operand k o inst st'.reg) in
        (
          b,
          subst (λ (x : Jit). Branches s x m host.register_map end.reg b) only
              (subst (λ (reg : ℕ → ℕ). Branches s u m host.register_map reg b) (sym kept) whole),
          moved,
        )
