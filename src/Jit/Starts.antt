-- ===== src/Jit/Starts.antt =====
-- About `pc_locs` in `translate` (tools/ubpf/vm/ubpf_jit_x86_64.c): where the code of each
-- instruction starts.
pub mod Append
use mathlib.Core.Path.{subst}
use mathlib.Core.List.{append_assoc, append-nil}
use ve_bpf.Base.{
  zero, suc, sym, ap, ◌∙◌, ℕ, ◌+◌, ◌≤◌, ◌<◌, ◌≡◌, ◌≢◌, refl, Bool, true, false, some, List, [], ◌∷◌,
  ◌++◌, arith, length, get_elem?, get_elem?-lt,
}
use ve_bpf.Ebpf.{Inst}
use ve_bpf.Ebpf.Encoding.{to_bytes}
use ve_bpf.Ebpf.Opcode.{decode}
use ve_bpf.Vm.State.{Vm}
use ve_bpf.Vm.Memory.{update}
use ve_bpf.Vm.Validate.{is_lddw}
use ve_bpf.Vm.Validate.Sound.{IsValidated, IsRest, SkipsZero, IsRest-tail, IsValidated-SkipsZero}
use ve_bpf.Jit.State.{Jit, offset, emitted, ◌>>◌}
use ve_bpf.Jit.Translate.{
  emit_return, emit_report, Host, map_register, translate_inst, translate_from, emit_prologue,
  emit_epilogue, emit_div_by_zero, translate, translate_mapped, set_pc_loc, set_exit_loc,
  set_div_by_zero_loc,
}
use ve_bpf.Jit.Compile.{initial}
use ve_bpf.Jit.Keeps.{Keeps, Keeps->>, IsKept, >>-emitted}
use ve_bpf.Jit.Keeps.Cases.{
  translate_mapped-Keeps, emit_return-Keeps, emit_report-Keeps, emit_epilogue-Keeps,
  emit_div_by_zero-Keeps,
}
use ve_bpf.Jit.Starts.Append.{
  CodeAt, CodeAt-append, CodeAt-last, SameExit-IsKept, SameHandler-IsKept,
  set_div_by_zero_loc-SameExit, set_exit_loc-at, set_div_by_zero_loc-at, Extends, Extends-IsKept,
  set_exit_loc-Extends, set_div_by_zero_loc-Extends, set_pc_loc-at, translate_from-Extends,
}

module _ (host : Host) (vm : Vm) (insts : List Inst) where
  -- In the code of `s`, what the `switch` writes for the instruction `inst` with index `i` starts at
  -- `pc_locs[i]`.
  abbrev pub StartsAt : Jit → ℕ → Inst → Type 0
  StartsAt s i inst = CodeAt s (s.pc_locs i) (
      translate_mapped vm insts i inst (map_register host.register_map inst.dst)
        (map_register host.register_map inst.src))

  StartsAt-Extends :
      (s s' : Jit) (i n : ℕ) (inst : Inst)
      → i < n
      → StartsAt s i inst
      → Extends n s s'
      → StartsAt s' i inst
  StartsAt-Extends s s' i n inst h a x =
      CodeAt-append s s' (s.pc_locs i) (s'.pc_locs i) _ x.bytes a x.longer (x.same_locs i h)

  translate_inst-StartsAt :
      (i : ℕ) (inst : Inst) (s s' : Jit)
      → translate_inst host vm insts i inst s ≡ emitted s'
      → StartsAt s' i inst
  unfolding translate_inst
  translate_inst-StartsAt i inst s s' e =
      let k =
        translate_mapped-Keeps (Extends-IsKept (suc i)) tt tt vm insts i inst
          (map_register host.register_map inst.dst) (map_register host.register_map inst.src)
          (λ _. tt) in
      let (t, p, q) =
        >>-emitted (set_pc_loc i)
          (translate_mapped vm insts i inst (map_register host.register_map inst.dst)
            (map_register host.register_map inst.src))
          s s' e in
      let x = k.keeps t s' q in
      CodeAt-last t s' (s'.pc_locs i) _ x.bytes q x.longer
        (x.same_locs i (omega arith) ∙ set_pc_loc-at i s t p)

  translate_from-StartsAt :
      (v : IsValidated vm insts) (rest : List Inst) (skips : Bool) (i : ℕ)
      → IsRest vm insts i rest
      → SkipsZero vm insts skips rest
      → (s s' : Jit) → translate_from host vm insts skips i rest s ≡ emitted s'
      → (k j : ℕ) (inst : Inst) → i + k ≡ j
      → get_elem? rest k ≡ some inst
      → inst.opcode ≢ 0
      → StartsAt s' j inst
  unfolding translate_from
  translate_from-StartsAt v [] skips i r z s s' e k j inst p at o = absurd (cc)
  translate_from-StartsAt v (x ∷ rest) true i r z s s' e zero j inst p at o =
      absurd (o (z refl inst at))
  translate_from-StartsAt v (x ∷ rest) true i r z s s' e (suc k) j inst p at o =
      translate_from-StartsAt v rest false (i + 1) (IsRest-tail vm insts i x rest r) (λ q. cc) s s'
        e k j inst (omega arith) at o
  translate_from-StartsAt v (x ∷ rest) false i r z s s' e zero j inst p at o =
      let (t, f, g) =
        >>-emitted (translate_inst host vm insts i x)
          (translate_from host vm insts (is_lddw (decode x.opcode)) (i + 1) rest) s s' e in
      let later =
        translate_from-Extends host vm insts (i + 1) (is_lddw (decode x.opcode)) (i + 1) rest
          (omega arith) in
      let same : x ≡ inst = cc in
      let here : i ≡ j = omega arith in
      subst (λ (l : ℕ). StartsAt s' l inst) here
        (subst (StartsAt s' i) same (
          StartsAt-Extends t s' i (i + 1) x (omega arith) (translate_inst-StartsAt i x s t f)
            (later.keeps t s' g)))
  translate_from-StartsAt v (x ∷ rest) false i r z s s' e (suc k) j inst p at o =
      let (t, f, g) =
        >>-emitted (translate_inst host vm insts i x)
          (translate_from host vm insts (is_lddw (decode x.opcode)) (i + 1) rest) s s' e in
      translate_from-StartsAt v rest (is_lddw (decode x.opcode)) (i + 1)
        (IsRest-tail vm insts i x rest r) (IsValidated-SkipsZero vm insts i x rest v r) t s' g k j
        inst (omega arith) at o

  -- Let the code have passed `validate`, and `translate` succeed from the state that `ubpf_compile`
  -- gives it. For each instruction whose opcode is not 0, the buffer holds from `pc_locs` of its index on
  -- what the `switch` writes for it.
  pub translate-StartsAt :
      (s : Jit) (i : ℕ) (inst : Inst)
      → IsValidated vm insts
      → get_elem? insts i ≡ some inst
      → inst.opcode ≢ 0
      → translate host vm insts initial ≡ emitted s
      → StartsAt s i inst
  unfolding translate
  translate-StartsAt s i inst v at o e =
      let n = length insts in
      let kept = Extends-IsKept n in
      let (t, _, f) =
        >>-emitted (emit_prologue host)
          (translate_from host vm insts false 0 insts
            >> (emit_epilogue host >> emit_div_by_zero host))
          initial s e in
      let (u, loop, g) =
        >>-emitted (translate_from host vm insts false 0 insts)
          (emit_epilogue host >> emit_div_by_zero host) t s f in
      let end =
        Keeps->> kept (emit_epilogue-Keeps kept (set_exit_loc-Extends n) host)
          (emit_div_by_zero-Keeps kept tt (set_div_by_zero_loc-Extends n) host) in
      StartsAt-Extends u s i n inst (get_elem?-lt insts i at)
        (translate_from-StartsAt v insts false 0 (λ k. ap (get_elem? insts) (omega arith))
          (λ q. absurd (cc)) t u loop i i inst (omega arith) at o)
        (end.keeps u s g)

-- Where the end of the code starts: the epilogue, and the handler of a division by zero.
pub record EndsAt (host : Host) (s : Jit) : Type 0 where
  pub exit : CodeAt s s.exit_loc (emit_return host)
  pub handler : CodeAt s s.div_by_zero_loc (emit_report host)

end-EndsAt :
    (host : Host) (t s : Jit)
    → (emit_epilogue host >> emit_div_by_zero host) t ≡ emitted s
    → EndsAt host s
unfolding emit_epilogue emit_div_by_zero
end-EndsAt host t s e =
    let (w, p, q) =
      >>-emitted (set_exit_loc >> emit_return host) (set_div_by_zero_loc >> emit_report host) t s
        e in
    let (u, p0, p1) = >>-emitted set_exit_loc (emit_return host) t w p in
    let (v, q0, q1) = >>-emitted set_div_by_zero_loc (emit_report host) w s q in
    let kept = Extends-IsKept 0 in
    let returns = (emit_return-Keeps kept host).keeps u w p1 in
    let later = (emit_div_by_zero-Keeps kept tt (set_div_by_zero_loc-Extends 0) host).keeps w s q in
    let reports = (emit_report-Keeps kept tt host).keeps v s q1 in
    let exit_kept = (emit_return-Keeps SameExit-IsKept host).keeps u w p1 in
    let exit_left =
      (emit_div_by_zero-Keeps SameExit-IsKept tt set_div_by_zero_loc-SameExit host).keeps w s q in
    let handler_kept = (emit_report-Keeps SameHandler-IsKept tt host).keeps v s q1 in
    record {
      exit =
          CodeAt-append w s w.exit_loc s.exit_loc _ later.bytes
            (CodeAt-last u w w.exit_loc _ returns.bytes p1 returns.longer
              (exit_kept.same ∙ set_exit_loc-at t u p0))
            later.longer exit_left.same;
      handler =
          CodeAt-last v s s.div_by_zero_loc _ reports.bytes q1 reports.longer
            (handler_kept.same ∙ set_div_by_zero_loc-at w v q0);
    }

-- The epilogue starts at `exit_loc`, the handler at `div_by_zero_loc`.
pub translate-EndsAt :
    (vm : Vm) (insts : List Inst) (host : Host) (s : Jit)
    → translate host vm insts initial ≡ emitted s
    → EndsAt host s
unfolding translate
translate-EndsAt vm insts host s e =
    let (t, _, f) =
      >>-emitted (emit_prologue host)
        (translate_from host vm insts false 0 insts
          >> (emit_epilogue host >> emit_div_by_zero host))
        initial s e in
    let (u, _, g) =
      >>-emitted (translate_from host vm insts false 0 insts)
        (emit_epilogue host >> emit_div_by_zero host) t s f in
    end-EndsAt host u s g
