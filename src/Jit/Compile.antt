-- ===== src/Jit/Compile.antt =====
-- `ubpf_compile` (tools/ubpf/vm/ubpf_jit_x86_64.c).
use ve_bpf.Base.{ℕ, Bool, true, false, Option, none, some, List, [], length}
use ve_bpf.Ebpf.{Inst}
use ve_bpf.Vm.State.{Vm}
use ve_bpf.Jit.State.{Jit, Emitted, emitted, unknown_instruction, aborted}
use ve_bpf.Jit.Translate.{Host, translate}
use ve_bpf.Jit.Resolve.{resolve_jumps}

-- The messages of `ubpf_compile`.
pub data CompileError : Type 0 where
  not_loaded mmap_failed mprotect_failed : CompileError
  unknown : ℕ → CompileError

-- The machine with its code, or a null pointer and a message; a failed `assert` ends the process.
pub data Compiled : Type 0 where
  compiled : Vm → List ℕ → Compiled
  not_compiled : CompileError → Compiled
  aborts : Compiled

-- The state that `translate` starts in.
abbrev pub initial : Jit
initial = record {
  buf = [];
  size = 65536;
  pc_locs = λ _. 0;
  exit_loc = 0;
  div_by_zero_loc = 0;
  jumps = [];
}

-- From the resolved code on: whether `mmap` and `mprotect` succeed.
unfoldable pub install : Vm → Bool → Bool → List ℕ → Compiled
install vm false protected code = not_compiled mmap_failed
install vm true false code = not_compiled mprotect_failed
install vm true true code =
    compiled (record vm { jitted = some code; jitted_size = length code }) code

unfoldable pub finish : Vm → Bool → Bool → Emitted → Compiled
unfolding install resolve_jumps
finish vm mapped protected (emitted st) = install vm mapped protected (resolve_jumps st)
finish vm mapped protected (unknown_instruction i) = not_compiled (unknown i)
finish vm mapped protected aborted = aborts

unfoldable pub compile_insts : Host → Vm → Bool → Bool → Option (List Inst) → Compiled
unfolding finish translate
compile_insts host vm mapped protected none = not_compiled not_loaded
compile_insts host vm mapped protected (some insts) =
    finish vm mapped protected (translate host vm insts initial)

unfoldable pub compile_jitted : Host → Vm → Bool → Bool → Option (List ℕ) → Compiled
unfolding compile_insts
compile_jitted host vm mapped protected (some code) = compiled vm code
compile_jitted host vm mapped protected none = compile_insts host vm mapped protected vm.insts

unfoldable pub compile : Host → Vm → Bool → Bool → Compiled
unfolding compile_jitted
compile host vm mapped protected = compile_jitted host vm mapped protected vm.jitted
