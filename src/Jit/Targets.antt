-- ===== src/Jit/Targets.antt =====
-- About the targets of the jumps that `translate` (tools/ubpf/vm/ubpf_jit_x86_64.c) records.
use mathlib.Core.Path.{subst}
use ve_bpf.Base.{
  zero, suc, ap, ◌∙◌, ℕ, ◌+◌, ◌^◌, ◌<◌, ◌≡◌, ◌≢◌, ◌⊎◌, inl, inr, refl, Bool, true, false, some,
  List, [], ◌∷◌, ◌++◌, arith, get_elem?, get_elem?-lt,
}
use ve_bpf.Base.Word.{u16, u32, sext16}
use ve_bpf.Ebpf.{Inst}
use ve_bpf.Ebpf.Encoding.RoundTrip.{AreInsts, AreInsts-get_elem?}
use ve_bpf.Ebpf.Opcode.{decode}
use ve_bpf.Vm.State.{Vm}
use ve_bpf.Vm.Memory.{update}
use ve_bpf.Vm.Validate.{is_lddw, jump_target}
use ve_bpf.Vm.Validate.Sound.{IsValidated, IsRest, IsRest-tail}
use ve_bpf.Vm.Exec.Flow.{is_jump, check_opcode-jump, check_inst-check_opcode}
use ve_bpf.Jit.State.{Jump, Jit, offset, emitted}
use ve_bpf.Jit.Translate.{
  Host, target_pc_exit, target_pc_div_by_zero, translate_inst, translate_from, translate,
  set_pc_loc, set_exit_loc, set_div_by_zero_loc,
}
use ve_bpf.Jit.Compile.{initial}
use ve_bpf.Jit.Keeps.{jump_at, IsKept, Keeps, Keeps->>, Keeps-skip}
use ve_bpf.Jit.Keeps.Cases.{
  translate_mapped-Keeps, emit_prologue-Keeps, emit_epilogue-Keeps, emit_div_by_zero-Keeps,
}

get_elem?-snoc :
    {A : Type 0} (xs : List A) (x y : A) (n : ℕ)
    → get_elem? (xs ++ x ∷ []) n ≡ some y
    → (get_elem? xs n ≡ some y) ⊎ (x ≡ y)
get_elem?-snoc [] x y zero h = inr (cc)
get_elem?-snoc [] x y (suc n) h = absurd (cc)
get_elem?-snoc (z ∷ xs) x y zero h = inl h
get_elem?-snoc (z ∷ xs) x y (suc n) h = get_elem?-snoc xs x y n h

module _ (P : ℕ → Type 0) where
  abbrev AreTargets : List Jump → Type 0
  AreTargets jumps = (n : ℕ) (jump : Jump) → get_elem? jumps n ≡ some jump → P jump.target_pc

  -- Only jumps to such targets are recorded.
  record KeepsTargets (s s' : Jit) : Type 0 where
    targets : AreTargets s.jumps → AreTargets s'.jumps

  KeepsTargets-IsKept : IsKept KeepsTargets P
  KeepsTargets-IsKept = record {
    kept_refl = λ s. record { targets = λ a. a };
    kept_trans = λ s t u p q. record { targets = λ a. q.targets (p.targets a) };
    kept_bytes = λ s bytes room. record { targets = λ a. a };
    kept_jump = λ s target_pc allowed room. record {
      targets = λ a n jump h. elim (get_elem?-snoc s.jumps (jump_at s target_pc) jump n h) [
        | inl before ↦ a n jump before
        | inr same ↦ subst (λ (j : Jump). P j.target_pc) same allowed
      ];
    };
  }

  set_exit_loc-Keeps : Keeps KeepsTargets set_exit_loc
  set_exit_loc-Keeps = record {
    keeps = λ s s' e.
        let same : record s { exit_loc = offset s } ≡ s' = cc in
        subst (KeepsTargets s) same (record { targets = λ a. a });
  }

  set_div_by_zero_loc-Keeps : Keeps KeepsTargets set_div_by_zero_loc
  set_div_by_zero_loc-Keeps = record {
    keeps = λ s s' e.
        let same : record s { div_by_zero_loc = offset s } ≡ s' = cc in
        subst (KeepsTargets s) same (record { targets = λ a. a });
  }

  set_pc_loc-Keeps : (i : ℕ) → Keeps KeepsTargets (set_pc_loc i)
  set_pc_loc-Keeps i = record {
    keeps = λ s s' e.
        let same : record s { pc_locs = update s.pc_locs i (offset s) } ≡ s' = cc in
        subst (KeepsTargets s) same (record { targets = λ a. a });
  }

-- The sum on `uint32_t` in `translate` and the one on `int` in `validate` agree.
jump_target-u32 :
    (i offset pc : ℕ)
    → jump_target i offset ≡ some pc
    → pc < 2 ^ 16
    → i < 2 ^ 16
    → offset < 2 ^ 16
    → u32 (i + sext16 offset + 1) ≡ pc
jump_target-u32 i offset pc h a b f = ground arith

opcode-is_jump : (opcode : ℕ) → is_jump (decode opcode) ≡ true → opcode ≢ 0
unfolding decode
opcode-is_jump opcode j e = ground arith

-- The exit, the handler of a division by zero, or the start of an instruction.
abbrev pub IsJumpTarget : List Inst → ℕ → Type 0
IsJumpTarget insts pc =
    (pc ≡ target_pc_exit)
    ⊎ (pc ≡ target_pc_div_by_zero)
    ⊎ ((x : Inst) × (get_elem? insts pc ≡ some x) × (x.opcode ≢ 0))

module _ (host : Host) (vm : Vm) (insts : List Inst) (v : IsValidated vm insts)
    (fields : AreInsts insts) where
  jumps-IsJumpTarget :
      (i : ℕ) (inst : Inst)
      → get_elem? insts i ≡ some inst
      → is_jump (decode inst.opcode) ≡ true
      → IsJumpTarget insts (u32 (i + sext16 inst.offset + 1))
  jumps-IsJumpTarget i inst at j =
      let bound = get_elem?-lt insts i at in
      let fits = (AreInsts-get_elem? insts i fields at).offset_fits in
      let checked =
        check_inst-check_opcode vm insts i inst
          (v.checked i inst at (opcode-is_jump inst.opcode j)) in
      let (x, found, nonzero, target) =
        check_opcode-jump vm insts i inst (decode inst.opcode) checked j bound v.short fits in
      let pc = u16 (u16 (i + 1) + inst.offset) in
      let same : u32 (i + sext16 inst.offset + 1) ≡ pc =
        jump_target-u32 i inst.offset pc target (omega arith) (let short = v.short in omega arith)
          fits in
      rw same (inr (inr (x, found, nonzero)))

  kept : IsKept (KeepsTargets (IsJumpTarget insts)) (IsJumpTarget insts)
  kept = KeepsTargets-IsKept (IsJumpTarget insts)

  translate_inst-Keeps :
      (i : ℕ) (inst : Inst)
      → get_elem? insts i ≡ some inst
      → Keeps (KeepsTargets (IsJumpTarget insts)) (translate_inst host vm insts i inst)
  unfolding translate_inst
  translate_inst-Keeps i inst at = Keeps->> kept (set_pc_loc-Keeps (IsJumpTarget insts) i) (
      translate_mapped-Keeps kept (inr (inl refl)) (inl refl) vm insts i inst _ _
        (jumps-IsJumpTarget i inst at))

  translate_from-Keeps :
      (skips : Bool) (i : ℕ) (rest : List Inst)
      → IsRest vm insts i rest
      → Keeps (KeepsTargets (IsJumpTarget insts)) (translate_from host vm insts skips i rest)
  unfolding translate_from
  translate_from-Keeps skips i [] r = Keeps-skip kept
  translate_from-Keeps true i (inst ∷ rest) r =
      translate_from-Keeps false (i + 1) rest (IsRest-tail vm insts i inst rest r)
  translate_from-Keeps false i (inst ∷ rest) r =
      Keeps->> kept (translate_inst-Keeps i inst (ap (get_elem? insts) (omega arith) ∙ r zero)) (
        translate_from-Keeps (is_lddw (decode inst.opcode)) (i + 1) rest
          (IsRest-tail vm insts i inst rest r))

  translate-Keeps : Keeps (KeepsTargets (IsJumpTarget insts)) (translate host vm insts)
  unfolding translate
  translate-Keeps = Keeps->> kept (emit_prologue-Keeps kept host) (
      Keeps->> kept (translate_from-Keeps false 0 insts (λ k. ap (get_elem? insts) (omega arith))) (
        Keeps->> kept (emit_epilogue-Keeps kept (set_exit_loc-Keeps (IsJumpTarget insts)) host) (
          emit_div_by_zero-Keeps kept (inl refl) (set_div_by_zero_loc-Keeps (IsJumpTarget insts))
            host)))

  pub translate-targets :
      (s : Jit) (n : ℕ) (jump : Jump)
      → translate host vm insts initial ≡ emitted s
      → get_elem? s.jumps n ≡ some jump
      → IsJumpTarget insts jump.target_pc
  translate-targets s n jump e at =
      let k = translate-Keeps.keeps initial s e in k.targets (λ m j h. absurd (cc)) n jump at
