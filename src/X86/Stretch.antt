-- ===== src/X86/Stretch.antt =====
-- The code that the loop of `translate` (tools/ubpf/vm/ubpf_jit_x86_64.c) writes for a stretch of
-- instructions and for those behind it.
use mathlib.Core.Path.{subst}
use ve_bpf.Base.{
  ℕ, ◌+◌, ◌^◌, ◌<◌, ◌≡◌, refl, sym, ◌∙◌, ap, Bool, true, false, arith, List, ◌∷◌, ◌++◌,
  get_elem?-lt, length,
}
use ve_bpf.Ebpf.{Inst}
use ve_bpf.Ebpf.Opcode.{decode, lddw}
use ve_bpf.Ebpf.Encoding.RoundTrip.{AreInsts}
use ve_bpf.Vm.Validate.{is_lddw}
use ve_bpf.Vm.Exec.{Context, State}
use ve_bpf.Jit.State.{Jit, Emitted, emitted, Emit, ◌>>◌, and_then}
use ve_bpf.Jit.Keeps.{>>-emitted}
use ve_bpf.Jit.Translate.{Host, translate_inst, translate_from}
use ve_bpf.X86.Computes.{IsMap}
use ve_bpf.X86.Block.{Straight, done, one_slot, two_slots, counted}

emitted->> :
    (m k : Emit) (s t s' : Jit) → m s ≡ emitted t → k t ≡ emitted s' → (m >> k) s ≡ emitted s'
emitted->> m k s t s' p q = ap (λ (e : Emitted). and_then e k) p ∙ q

module _ (host : Host) (c : Context) (is_map : IsMap host.register_map) (fields : AreInsts c.code)
    (short : length c.code < 2 ^ 16) where
  pub Straight-emitted :
      (block more : List Inst) (i : ℕ) (st st' : State) (s s' : Jit)
      → Straight c block st st'
      → st.pc ≡ i
      → translate_from host c.vm c.code false i (block ++ more) s ≡ emitted s'
      → (t : Jit) × (translate_from host c.vm c.code false i block s ≡ emitted t)
        × (translate_from host c.vm c.code false st'.pc more t ≡ emitted s')
  unfolding translate_from
  Straight-emitted _ more i st st' s s' done at emits = (
    s,
    refl,
    subst (λ (n : ℕ). translate_from host c.vm c.code false n more s ≡ emitted s') (sym at) emits,
  )
  Straight-emitted _ more i st st' s s'
        (one_slot {inst = inst} {rest = rest} {mid = mid} {op = op} fetch is_op one f run
          next_rounds)
        at emits =
      let inside = get_elem?-lt c.code st.pc fetch in
      let moved : mid.pc ≡ i + 1 =
        let flow = counted host c is_map fields short inst op st mid fetch is_op f run in
        ground arith in
      let flag : is_lddw (decode inst.opcode) ≡ false = rw is_op one in
      let others = λ (b : Bool). translate_from host c.vm c.code b (i + 1) (rest ++ more) in
      let (u, first, tail) =
        >>-emitted (translate_inst host c.vm c.code i inst) (others (is_lddw (decode inst.opcode)))
          s s' emits in
      let (t, head, last) =
        Straight-emitted rest more (i + 1) mid st' u s' next_rounds moved
          (subst (λ (b : Bool). others b u ≡ emitted s') flag tail) in
      let restored =
        subst (λ (b : Bool). translate_from host c.vm c.code b (i + 1) rest u ≡ emitted t)
          (sym flag) head in
      (
        t,
        emitted->> (translate_inst host c.vm c.code i inst)
            (translate_from host c.vm c.code (is_lddw (decode inst.opcode)) (i + 1) rest) s u t
            first restored,
        last,
      )
  Straight-emitted _ more i st st' s s'
        (two_slots {inst = inst} {second = second} {rest = rest} {mid = mid} fetch there is_op run
          next_rounds)
        at emits =
      let inside = get_elem?-lt c.code st.pc fetch in
      let inside' = get_elem?-lt c.code (st.pc + 1) there in
      let moved : mid.pc ≡ i + 1 + 1 =
        let flow = counted host c is_map fields short inst lddw st mid fetch is_op refl run in
        ground arith in
      let flag : is_lddw (decode inst.opcode) ≡ true = rw is_op refl in
      let others =
        λ (b : Bool). translate_from host c.vm c.code b (i + 1) (second ∷ (rest ++ more)) in
      let (u, first, tail) =
        >>-emitted (translate_inst host c.vm c.code i inst) (others (is_lddw (decode inst.opcode)))
          s s' emits in
      let (t, head, last) =
        Straight-emitted rest more (i + 1 + 1) mid st' u s' next_rounds moved
          (subst (λ (b : Bool). others b u ≡ emitted s') flag tail) in
      let restored =
        subst
          (λ (b : Bool). translate_from host c.vm c.code b (i + 1) (second ∷ rest) u ≡ emitted t)
          (sym flag) head in
      (
        t,
        emitted->> (translate_inst host c.vm c.code i inst)
            (translate_from host c.vm c.code (is_lddw (decode inst.opcode)) (i + 1) (second ∷ rest))
            s u t first restored,
        last,
      )
