-- ===== src/Jit/Tests.antt =====
-- The translation of a small program, with jumps forward, to the exit and to the handler of a
-- division by zero.
use ve_bpf.Base.{
  ℕ, ◌+◌, ◌-◌, ◌%◌, ◌^◌, ◌≤◌, ◌≡◌, refl, true, none, some, List, [], ◌∷◌, length, get_elem?, arith,
}
use ve_bpf.Ebpf.{Inst}
use ve_bpf.Ebpf.Opcode.{decode}
use ve_bpf.Vm.State.{Vm}
use ve_bpf.Vm.Validate.{validate}
use ve_bpf.Vm.Validate.Sound.{IsValidated, validate-IsValidated}
use ve_bpf.Jit.State.{Jump, Jit, offset, Emitted, emitted}
use ve_bpf.Jit.Registers.{
  register_map, set_register_offset, IsRearranged, set_register_offset-IsRearranged,
}
use ve_bpf.Jit.Translate.{Host, translate}
use ve_bpf.Jit.Resolve.{target_loc, relative, resolve_jumps}
use ve_bpf.Jit.Compile.{initial}
use ve_bpf.Jit.Starts.{StartsAt, translate-StartsAt}
use ve_bpf.Ebpf.Encoding.RoundTrip.{AreInsts}
use ve_bpf.Jit.Lands.{IsStart, jump-IsStart}
use ve_bpf.Jit.Layout.{IsLaidOut}
use ve_bpf.Jit.Layout.Program.{translate-IsLaidOut}
use ve_bpf.Jit.Layout.Fields.{IsResolved, resolve_jumps-IsResolved, relative-target_loc}

-- jeq r1, 0, +1; div64 r0, r1; exit; exit.
abbrev program : List Inst
program =
    record { opcode = 0x15; dst = 1; src = 0; offset = 1; imm = 0 }
    ∷ record { opcode = 0x3f; dst = 0; src = 1; offset = 0; imm = 0 }
    ∷ record { opcode = 0x95; dst = 0; src = 0; offset = 0; imm = 0 }
    ∷ record { opcode = 0x95; dst = 0; src = 0; offset = 0; imm = 0 }
    ∷ []

abbrev vm : Vm
vm = record {
  insts = some program;
  num_insts = 4;
  jitted = none;
  jitted_size = 0;
  ext_funcs = λ _. none;
  ext_func_names = λ _. none;
  bounds_check_enabled = true;
}

abbrev host : Host
host = record {
  register_map = register_map;
  stderr_address = 2 ^ 46;
  fprintf_address = 2 ^ 46 + 4096;
  format_address = 2 ^ 46 + 8192;
}

abbrev state_or_initial : Emitted → Jit
state_or_initial (emitted s) = s
state_or_initial _ = initial

written : Jit
written = state_or_initial (translate host vm program initial)

written-emitted : translate host vm program initial ≡ emitted written
unfolding written translate decode
written-emitted = refl

four_jumps : length written.jumps ≡ 4
unfolding written translate decode
four_jumps = refl

-- The jump of the first exit.
abbrev jump_to_exit : Jump
jump_to_exit = record { offset_loc = 61; target_pc = 2 ^ 32 - 1 }

third_jump : get_elem? written.jumps 2 ≡ some jump_to_exit
unfolding written translate decode
third_jump = refl

-- Witnesses.
translate-IsLaidOut_example : IsLaidOut written × (offset written ≤ 65536)
translate-IsLaidOut_example = translate-IsLaidOut host vm program written written-emitted

resolve_jumps-IsResolved_example : IsResolved written (resolve_jumps written)
resolve_jumps-IsResolved_example = resolve_jumps-IsResolved host vm program written written-emitted

relative-target_loc_example :
    ((61 + 4 + relative written jump_to_exit) % 2 ^ 32 ≡ target_loc written jump_to_exit)
    × (target_loc written jump_to_exit ≤ offset written)
relative-target_loc_example =
    relative-target_loc host vm program written jump_to_exit written-emitted

abbrev division : Inst
division = record { opcode = 0x3f; dst = 0; src = 1; offset = 0; imm = 0 }

program-IsValidated : IsValidated vm program
unfolding validate decode
program-IsValidated = validate-IsValidated vm program refl

translate-StartsAt_example : StartsAt host vm program written 1 division
translate-StartsAt_example =
    translate-StartsAt host vm program written 1 division program-IsValidated refl
      (λ e. absurd (cc)) written-emitted

program-AreInsts : AreInsts program
program-AreInsts = ground arith

jump-IsStart_example :
    IsStart host vm program written ((61 + 4 + relative written jump_to_exit) % 2 ^ 32)
jump-IsStart_example =
    jump-IsStart host vm program written 2 jump_to_exit program-IsValidated program-AreInsts
      written-emitted third_jump

abbrev constant_rand_r : ℕ → ℕ × ℕ
constant_rand_r seed = (7, seed + 1)

set_register_offset-IsRearranged_example :
    (map : ℕ → ℕ) × (set_register_offset constant_rand_r 100 register_map ≡ some map)
    × IsRearranged register_map map
set_register_offset-IsRearranged_example =
    set_register_offset-IsRearranged constant_rand_r 100 register_map (omega arith)
