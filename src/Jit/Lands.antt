-- ===== src/Jit/Lands.antt =====
-- About the jumps of the code that `translate` and `resolve_jumps`
-- (tools/ubpf/vm/ubpf_jit_x86_64.c) make: where they lead.
use ve_bpf.Base.{
  ℕ, ◌+◌, ◌^◌, ◌%◌, ◌<◌, ◌≡◌, ◌⊎◌, inl, inr, some, List, arith, get_elem?, get_elem?-lt,
}
use ve_bpf.Ebpf.{Inst}
use ve_bpf.Ebpf.Encoding.RoundTrip.{AreInsts}
use ve_bpf.Vm.State.{Vm}
use ve_bpf.Vm.Validate.Sound.{IsValidated}
use ve_bpf.Jit.State.{Jump, Jit, emitted}
use ve_bpf.Jit.Translate.{
  Host, target_pc_exit, target_pc_div_by_zero, translate, emit_return, emit_report,
}
use ve_bpf.Jit.Resolve.{target_loc, relative}
use ve_bpf.Jit.Compile.{initial}
use ve_bpf.Jit.Layout.Fields.{relative-target_loc}
use ve_bpf.Jit.Starts.{StartsAt, translate-StartsAt, translate-EndsAt}
use ve_bpf.Jit.Starts.Append.{CodeAt}
use ve_bpf.Jit.Targets.{IsJumpTarget, translate-targets}

target_loc-exit :
    (s : Jit) (jump : Jump) → jump.target_pc ≡ target_pc_exit → target_loc s jump ≡ s.exit_loc
unfolding target_loc
target_loc-exit s jump h = ground arith

target_loc-handler :
    (s : Jit) (jump : Jump)
    → jump.target_pc ≡ target_pc_div_by_zero
    → target_loc s jump ≡ s.div_by_zero_loc
unfolding target_loc
target_loc-handler s jump h = ground arith

target_loc-pc :
    (s : Jit) (jump : Jump) → jump.target_pc < 2 ^ 16 → s.pc_locs jump.target_pc ≡ target_loc s jump
unfolding target_loc
target_loc-pc s jump h = ground arith

module _ (host : Host) (vm : Vm) (insts : List Inst) where
  -- At the location `loc` of the code of `s` starts the epilogue, the handler of a division by zero,
  -- or the code of an instruction of the program.
  abbrev pub IsStart : Jit → ℕ → Type 0
  IsStart s loc =
      CodeAt s loc (emit_return host)
      ⊎ CodeAt s loc (emit_report host)
      ⊎ ((pc : ℕ) × (x : Inst) × (get_elem? insts pc ≡ some x)
          × StartsAt host vm insts s pc x
          × (s.pc_locs pc ≡ loc))

  target_loc-IsStart :
      (s : Jit) (jump : Jump)
      → IsValidated vm insts
      → translate host vm insts initial ≡ emitted s
      → IsJumpTarget insts jump.target_pc
      → IsStart s (target_loc s jump)
  target_loc-IsStart s jump v e (inl exit) =
      rw (target_loc-exit s jump exit) (inl (translate-EndsAt vm insts host s e).exit)
  target_loc-IsStart s jump v e (inr (inl handler)) =
      rw (target_loc-handler s jump handler)
        (inr (inl (translate-EndsAt vm insts host s e).handler))
  target_loc-IsStart s jump v e (inr (inr (x, at, nonzero))) =
      let bound = get_elem?-lt insts jump.target_pc at in
      let short = v.short in
      inr (
        inr (
          jump.target_pc,
          x,
          at,
          translate-StartsAt host vm insts s jump.target_pc x v at nonzero e,
          target_loc-pc s jump (omega arith),
        ))

  -- Let the code have passed `validate`, with fields of their C widths, and `translate` succeed from
  -- the state that `ubpf_compile` gives it. The displacement that `resolve_jumps` computes for a jump
  -- leads, modulo 2 ^ 32, to the first byte of the epilogue, of the handler of a division by zero, or of
  -- the code of an instruction of the program.
  pub jump-IsStart :
      (s : Jit) (n : ℕ) (jump : Jump)
      → IsValidated vm insts
      → AreInsts insts
      → translate host vm insts initial ≡ emitted s
      → get_elem? s.jumps n ≡ some jump
      → IsStart s ((jump.offset_loc + 4 + relative s jump) % 2 ^ 32)
  jump-IsStart s n jump v fields e at =
      let (same, _) = relative-target_loc host vm insts s jump e in
      rw same
        (target_loc-IsStart s jump v e (translate-targets host vm insts v fields s n jump e at))
