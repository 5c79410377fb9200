-- ===== src/Jit/Layout/Program.antt =====
-- About the layout of the code that `translate` (tools/ubpf/vm/ubpf_jit_x86_64.c) writes.
use ve_bpf.Base.{refl, ℕ, ◌+◌, ◌≤◌, ◌≡◌, Bool, true, false, List, [], ◌∷◌, arith}
use ve_bpf.Ebpf.{Inst}
use ve_bpf.Ebpf.Opcode.{decode}
use ve_bpf.Vm.State.{Vm}
use ve_bpf.Vm.Memory.{update}
use ve_bpf.Vm.Validate.{is_lddw}
use mathlib.Core.Path.{subst}
use ve_bpf.Jit.State.{Jit, offset, emitted}
use ve_bpf.Jit.Translate.{
  Host, translate_inst, translate_from, translate, set_pc_loc, set_exit_loc, set_div_by_zero_loc,
}
use ve_bpf.Jit.Compile.{initial}
use ve_bpf.Jit.Keeps.{Keeps, Keeps->>, Keeps-skip}
use ve_bpf.Jit.Layout.{IsLaidOut, KeepsLayout, KeepsLayout-IsKept}
use ve_bpf.Jit.Keeps.Cases.{
  translate_mapped-Keeps, emit_prologue-Keeps, emit_epilogue-Keeps, emit_div_by_zero-Keeps,
}

updated_within :
    (s : Jit) (i k : ℕ) → s.pc_locs k ≤ offset s → update s.pc_locs i (offset s) k ≤ offset s
updated_within s i k h = ground arith

set_pc_loc-Keeps : (i : ℕ) → Keeps KeepsLayout (set_pc_loc i)
set_pc_loc-Keeps i = record {
  keeps = λ s s' e.
      let same : record s { pc_locs = update s.pc_locs i (offset s) } ≡ s' = cc in
      subst (KeepsLayout s) same (record {
        layout = λ l. (record {
          placed = l.placed;
          fits = l.fits;
          pc_locs_within = λ k. updated_within s i k (l.pc_locs_within k);
          exit_loc_within = l.exit_loc_within;
          div_by_zero_loc_within = l.div_by_zero_loc_within;
        });
        same_size = refl;
      });
}

set_exit_loc-Keeps : Keeps KeepsLayout set_exit_loc
set_exit_loc-Keeps = record {
  keeps = λ s s' e.
      let same : record s { exit_loc = offset s } ≡ s' = cc in
      subst (KeepsLayout s) same (record {
        layout = λ l. (record {
          placed = l.placed;
          fits = l.fits;
          pc_locs_within = l.pc_locs_within;
          exit_loc_within = omega arith;
          div_by_zero_loc_within = l.div_by_zero_loc_within;
        });
        same_size = refl;
      });
}

set_div_by_zero_loc-Keeps : Keeps KeepsLayout set_div_by_zero_loc
set_div_by_zero_loc-Keeps = record {
  keeps = λ s s' e.
      let same : record s { div_by_zero_loc = offset s } ≡ s' = cc in
      subst (KeepsLayout s) same (record {
        layout = λ l. (record {
          placed = l.placed;
          fits = l.fits;
          pc_locs_within = l.pc_locs_within;
          exit_loc_within = l.exit_loc_within;
          div_by_zero_loc_within = omega arith;
        });
        same_size = refl;
      });
}

translate_inst-Keeps :
    (host : Host) (vm : Vm) (insts : List Inst) (i : ℕ) (inst : Inst)
    → Keeps KeepsLayout (translate_inst host vm insts i inst)
unfolding translate_inst
translate_inst-Keeps host vm insts i inst =
    Keeps->> KeepsLayout-IsKept (set_pc_loc-Keeps i)
      (translate_mapped-Keeps KeepsLayout-IsKept tt tt vm insts i inst _ _ (λ _. tt))

translate_from-Keeps :
    (host : Host) (vm : Vm) (insts : List Inst) (skips : Bool) (i : ℕ) (rest : List Inst)
    → Keeps KeepsLayout (translate_from host vm insts skips i rest)
unfolding translate_from
translate_from-Keeps host vm insts skips i [] = Keeps-skip KeepsLayout-IsKept
translate_from-Keeps host vm insts true i (inst ∷ rest) =
    translate_from-Keeps host vm insts false (i + 1) rest
translate_from-Keeps host vm insts false i (inst ∷ rest) =
    Keeps->> KeepsLayout-IsKept (translate_inst-Keeps host vm insts i inst)
      (translate_from-Keeps host vm insts (is_lddw (decode inst.opcode)) (i + 1) rest)

translate-Keeps :
    (host : Host) (vm : Vm) (insts : List Inst) → Keeps KeepsLayout (translate host vm insts)
unfolding translate
translate-Keeps host vm insts =
    let kept = KeepsLayout-IsKept in
    Keeps->> kept (emit_prologue-Keeps kept host) (
      Keeps->> kept (translate_from-Keeps host vm insts false 0 insts) (
        Keeps->> kept (emit_epilogue-Keeps kept set_exit_loc-Keeps host)
          (emit_div_by_zero-Keeps kept tt set_div_by_zero_loc-Keeps host)))

initial-IsLaidOut : IsLaidOut initial
initial-IsLaidOut = record {
  placed = omega arith;
  fits = omega arith;
  pc_locs_within = λ i. omega arith;
  exit_loc_within = omega arith;
  div_by_zero_loc_within = omega arith;
}

-- When `translate` succeeds from the state that `ubpf_compile` gives it, the four-byte fields of
-- the recorded jumps lie one behind the other in the code, without overlap, and the code is at
-- most the 65536 bytes of the buffer.
pub translate-IsLaidOut :
    (host : Host) (vm : Vm) (insts : List Inst) (s : Jit)
    → translate host vm insts initial ≡ emitted s
    → IsLaidOut s × (offset s ≤ 65536)
translate-IsLaidOut host vm insts s e =
    let kept = (translate-Keeps host vm insts).keeps initial s e in
    let laid = kept.layout initial-IsLaidOut in
    let same = kept.same_size in (laid, let fits = laid.fits in omega arith)
