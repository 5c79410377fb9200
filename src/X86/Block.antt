-- ===== src/X86/Block.antt =====
-- The code that the loop of `translate` (tools/ubpf/vm/ubpf_jit_x86_64.c) writes for a stretch of
-- instructions that change registers, against the rounds of `ubpf_exec` (tools/ubpf/vm/ubpf_vm.c).
use mathlib.Core.Path.{subst}
use mathlib.Core.List.{append_assoc, append-nil}
use ve_bpf.Base.{
  ℕ, ◌+◌, ◌%◌, ◌^◌, ◌<◌, ◌≡◌, refl, sym, ◌∙◌, ap, Bool, true, false, arith, if◌then◌else◌, List, [],
  ◌∷◌, ◌++◌, Option, some, get_elem?, get_elem?-lt, length,
}
use ve_bpf.Base.Word.{u16}
use ve_bpf.Ebpf.{Inst}
use ve_bpf.Ebpf.Opcode.{Opcode, decode, lddw, alu, src_imm}
use ve_bpf.Ebpf.Encoding.RoundTrip.{AreInsts, AreInsts-get_elem?}
use ve_bpf.Vm.Memory.{update}
use ve_bpf.Vm.Validate.{is_lddw}
use ve_bpf.Vm.Exec.{Context, State, next, exec_opcode, step, fetched}
use ve_bpf.Vm.Exec.Flow.{exec_opcode-Flows, Flows}
use ve_bpf.Vm.Exec.Words.{AreWords, CallsReturnWords, step-AreWords}
use ve_bpf.Jit.State.{offset, Jit, emitted}
use ve_bpf.Jit.Keeps.{>>-emitted}
use ve_bpf.Jit.Translate.{
  Host, map_register, set_pc_loc, translate_opcode, translate_mapped, translate_inst,
  translate_from,
}
use ve_bpf.X86.Machine.{Machine, Runs, stop, Runs-trans}
use ve_bpf.X86.Computes.{IsMap, Holds, Computes, is_covered}
use ve_bpf.X86.Agrees.{covered}

-- The rounds of a stretch of covered instructions.
pub data Straight (c : Context) : List Inst → State → State → Type 0 where
  done : {st : State} → Straight c [] st st
  one_slot :
      {inst : Inst} {rest : List Inst} {st mid end : State} {op : Opcode}
      → get_elem? c.code st.pc ≡ some inst
      → decode inst.opcode ≡ some op
      → is_lddw (some op) ≡ false
      → is_covered inst st.reg op ≡ true
      → step c st ≡ next mid
      → Straight c rest mid end
      → Straight c (inst ∷ rest) st end
  two_slots :
      {inst second : Inst} {rest : List Inst} {st mid end : State}
      → get_elem? c.code st.pc ≡ some inst
      → get_elem? c.code (st.pc + 1) ≡ some second
      → decode inst.opcode ≡ some lddw
      → step c st ≡ next mid
      → Straight c rest mid end
      → Straight c (inst ∷ second ∷ rest) st end

Computes-trans :
    {s t s' : Jit} {m : Machine} {map reg reg' : ℕ → ℕ} (p : Computes s t m map reg)
    → Computes t s' p.after map reg'
    → Computes s s' m map reg'
Computes-trans {m = m} p q = record {
  bytes = p.bytes ++ q.bytes;
  written =
      q.written ∙ ap (λ (l : List ℕ). l ++ q.bytes) p.written ∙ append_assoc _ p.bytes q.bytes;
  after = q.after;
  runs = λ rest.
      subst (λ (l : List ℕ). Runs l m rest q.after) (sym (append_assoc p.bytes q.bytes rest))
        (Runs-trans (p.runs (q.bytes ++ rest)) (q.runs rest));
  result = q.result;
}

-- No code.
abbrev pub nothing_emitted :
    (map reg : ℕ → ℕ) (m : Machine) (s t : Jit)
    → Holds map reg m
    → t.buf ≡ s.buf
    → Computes s t m map reg
nothing_emitted map reg m s t same e = record {
  bytes = [];
  written = e ∙ sym (append-nil s.buf);
  after = m;
  runs = λ rest. stop;
  result = same;
}

pub set_pc_loc-buf : (i : ℕ) (s t : Jit) → set_pc_loc i s ≡ emitted t → t.buf ≡ s.buf
set_pc_loc-buf i s t e =
    let here : record s { pc_locs = update s.pc_locs i (offset s) } ≡ t = cc in
    ap (λ (x : Jit). x.buf) (sym here)

abbrev pub marked_pc_loc :
    (map reg : ℕ → ℕ) (i : ℕ) (m : Machine) (s t : Jit)
    → Holds map reg m
    → set_pc_loc i s ≡ emitted t
    → Computes s t m map reg
marked_pc_loc map reg i m s t same e = nothing_emitted map reg m s t same (set_pc_loc-buf i s t e)

pub map_register-some :
    (map : ℕ → ℕ) (r : ℕ) (x : ℕ) → map_register map r ≡ some x → (r < 11) × (x ≡ map r)
unfolding map_register
map_register-some map r x h =
    let small : r < 11 = ground arith in
    let same : r % 11 ≡ r = omega arith in (small, ground arith)

is_covered-pc :
    (op : Opcode) (inst : Inst) (st st' : State) (reg : ℕ → ℕ)
    → is_covered inst reg op ≡ true
    → Flows (some op) inst st st'
    → st'.pc ≡ (if is_lddw (some op) then u16 (st.pc + 1) else st.pc)
is_covered-pc lddw inst st st' reg f h = ground arith
is_covered-pc (alu op src_imm) inst st st' reg f h = ground arith
is_covered-pc op inst st st' reg f h = ground arith

module _ (host : Host) (c : Context) (is_map : IsMap host.register_map) (fields : AreInsts c.code)
    (short : length c.code < 2 ^ 16) where
  mapped :
      (inst : Inst) (op : Opcode) (dst src : Option ℕ) (st st' : State) (m : Machine) (s s' : Jit)
      → map_register host.register_map inst.dst ≡ dst
      → map_register host.register_map inst.src ≡ src
      → get_elem? c.code st.pc ≡ some inst
      → decode inst.opcode ≡ some op
      → is_covered inst st.reg op ≡ true
      → Holds host.register_map st.reg m
      → ((r : ℕ) → st.reg r < 2 ^ 64)
      → step c st ≡ next st'
      → translate_mapped c.vm c.code st.pc inst dst src s ≡ emitted s'
      → Computes s s' m host.register_map st'.reg
  unfolding step fetched
  mapped inst op (some dst) (some src) st st' m s s' a b at is_op f same words run emits =
      let (pd, to_dst) = map_register-some host.register_map inst.dst dst a in
      let (ps, to_src) = map_register-some host.register_map inst.src src b in
      let fits = AreInsts-get_elem? c.code st.pc fields at in
      let inside = get_elem?-lt c.code st.pc at in
      let round = subst (λ (o : Option Inst). fetched c st o ≡ next st') at run in
      let after_fetch = record st { pc = u16 (st.pc + 1) } in
      let executed =
        subst (λ (o : Option Opcode). exec_opcode c st.pc inst after_fetch o ≡ next st') is_op
          round in
      let written =
        subst
          (λ (o : Option Opcode). translate_opcode c.vm c.code st.pc inst src dst o s ≡ emitted s')
          is_op emits in
      let renamed =
        subst (λ (y : ℕ). translate_opcode c.vm c.code st.pc inst src y (some op) s ≡ emitted s')
          to_dst written in
      let code =
        subst
          (λ (x : ℕ).
            translate_opcode c.vm c.code st.pc inst x (host.register_map inst.dst) (some op) s
            ≡ emitted s')
          to_src renamed in
      covered c.vm c.code c st.pc st.pc inst host.register_map after_fetch st' m s s' is_map
        (record { holds = same.holds }) words fits.imm_fits pd ps op f refl (omega arith) executed
        code
  mapped inst op _ _ st st' m s s' a b at is_op f same words run emits = absurd cc

  translated :
      (inst : Inst) (op : Opcode) (st st' : State) (m : Machine) (s s' : Jit)
      → get_elem? c.code st.pc ≡ some inst
      → decode inst.opcode ≡ some op
      → is_covered inst st.reg op ≡ true
      → Holds host.register_map st.reg m
      → ((r : ℕ) → st.reg r < 2 ^ 64)
      → step c st ≡ next st'
      → translate_inst host c.vm c.code st.pc inst s ≡ emitted s'
      → Computes s s' m host.register_map st'.reg
  unfolding translate_inst
  translated inst op st st' m s s' at is_op f same words run emits =
      let body =
        translate_mapped c.vm c.code st.pc inst (map_register host.register_map inst.dst)
          (map_register host.register_map inst.src) in
      let (t, marked, written) = >>-emitted (set_pc_loc st.pc) body s s' emits in
      Computes-trans (marked_pc_loc host.register_map st.reg st.pc m s t same marked) (
        mapped inst op (map_register host.register_map inst.dst)
          (map_register host.register_map inst.src) st st' m t s' refl refl at is_op f same words
          run written)

  pub counted :
      (inst : Inst) (op : Opcode) (st st' : State)
      → get_elem? c.code st.pc ≡ some inst
      → decode inst.opcode ≡ some op
      → is_covered inst st.reg op ≡ true
      → step c st ≡ next st'
      → st'.pc ≡ (if is_lddw (some op) then u16 (u16 (st.pc + 1) + 1) else u16 (st.pc + 1))
  unfolding step fetched
  counted inst op st st' at is_op f run =
      let round = subst (λ (o : Option Inst). fetched c st o ≡ next st') at run in
      let after_fetch = record st { pc = u16 (st.pc + 1) } in
      let executed =
        subst (λ (o : Option Opcode). exec_opcode c st.pc inst after_fetch o ≡ next st') is_op
          round in
      let flows = exec_opcode-Flows c st.pc inst after_fetch st' (some op) executed in
      is_covered-pc op inst after_fetch st' st.reg f flows

  module _ (calls : CallsReturnWords c.vm) where
    -- In code of fewer than 65536 instructions with fields of their C widths, with external
    -- functions that return words, let rounds of `ubpf_exec` execute a stretch of instructions, each
    -- one that `is_covered` names, from 64-bit words in the registers and bytes in memory. Let
    -- `translate` write the code of the stretch under a map of the registers to distinct registers
    -- of the processor, none of them rcx. From a state of the processor that holds the registers,
    -- this code, whatever bytes follow it, runs to its end and leaves the processor holding the
    -- registers that the rounds leave.
    pub Straight-Computes :
        (block : List Inst) (i : ℕ) (st st' : State) (m : Machine) (s s' : Jit)
        → Straight c block st st'
        → st.pc ≡ i
        → AreWords st
        → Holds host.register_map st.reg m
        → translate_from host c.vm c.code false i block s ≡ emitted s'
        → Computes s s' m host.register_map st'.reg
    unfolding translate_from
    Straight-Computes _ i st st' m s s' done at words same emits =
        let here : s ≡ s' = cc in
        nothing_emitted host.register_map st.reg m s s' same (ap (λ (x : Jit). x.buf) (sym here))
    Straight-Computes _ i st st' m s s'
          (one_slot {inst = inst} {rest = rest} {mid = mid} {op = op} fetch is_op one f run
            next_rounds)
          at words same emits =
        let inside = get_elem?-lt c.code st.pc fetch in
        let moved : mid.pc ≡ i + 1 =
          let flow = counted inst op st mid fetch is_op f run in ground arith in
        let flag : is_lddw (decode inst.opcode) ≡ false = rw is_op one in
        let (t, first, others) =
          >>-emitted (translate_inst host c.vm c.code i inst)
            (translate_from host c.vm c.code (is_lddw (decode inst.opcode)) (i + 1) rest) s s'
            emits in
        let here =
          subst (λ (n : ℕ). translate_inst host c.vm c.code n inst s ≡ emitted t) (sym at) first in
        let head = translated inst op st mid m s t fetch is_op f same words.registers run here in
        let tail =
          subst (λ (b : Bool). translate_from host c.vm c.code b (i + 1) rest t ≡ emitted s') flag
            others in
        Computes-trans head (
          Straight-Computes rest (i + 1) mid st' head.after t s' next_rounds moved
            (step-AreWords c fields calls st mid words run) head.result tail)
    Straight-Computes _ i st st' m s s'
          (two_slots {inst = inst} {second = second} {rest = rest} {mid = mid} fetch there is_op run
            next_rounds)
          at words same emits =
        let inside = get_elem?-lt c.code st.pc fetch in
        let inside' = get_elem?-lt c.code (st.pc + 1) there in
        let moved : mid.pc ≡ i + 1 + 1 =
          let flow = counted inst lddw st mid fetch is_op refl run in ground arith in
        let flag : is_lddw (decode inst.opcode) ≡ true = rw is_op refl in
        let (t, first, others) =
          >>-emitted (translate_inst host c.vm c.code i inst)
            (translate_from host c.vm c.code (is_lddw (decode inst.opcode)) (i + 1) (second ∷ rest))
            s s' emits in
        let here =
          subst (λ (n : ℕ). translate_inst host c.vm c.code n inst s ≡ emitted t) (sym at) first in
        let head =
          translated inst lddw st mid m s t fetch is_op refl same words.registers run here in
        let tail =
          subst
            (λ (b : Bool). translate_from host c.vm c.code b (i + 1) (second ∷ rest) t ≡ emitted s')
            flag others in
        Computes-trans head (
          Straight-Computes rest (i + 1 + 1) mid st' head.after t s' next_rounds moved
            (step-AreWords c fields calls st mid words run) head.result tail)
