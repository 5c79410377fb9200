-- ===== src/Lifetime/Tests.antt =====
-- A machine of tools/ubpf/vm from `ubpf_create` to `ubpf_destroy`.
use ve_bpf.Base.{◌≡◌, refl, true, false, Option, none, some, List, [], ◌∷◌, ◌++◌}
use ve_bpf.Base.Held.{Event, held_after}
use ve_bpf.Ebpf.Opcode.{decode}
use ve_bpf.Vm.State.{Vm, create}
use ve_bpf.Vm.Load.{load}
use ve_bpf.Vm.Validate.{validate}
use ve_bpf.Jit.Registers.{register_map}
use ve_bpf.Jit.Translate.{Host}
use ve_bpf.Jit.Compile.{compile}
use ve_bpf.Lifetime.{Block, destroy, create_events, Call, call_load, call_compile, call, calls}
use ve_bpf.Lifetime.Owned.{same}
use ve_bpf.Lifetime.Balance.{calls-destroy}

abbrev host : Host
host = record {
  register_map = register_map;
  stderr_address = 4096;
  fprintf_address = 4096;
  format_address = 4096;
}

-- Code that is too short, then an exit, a compilation that `mprotect` stops, and one that succeeds.
abbrev history : List Call
history =
    call_load (0x95 ∷ []) true
    ∷ call_load (0x95 ∷ 0 ∷ 0 ∷ 0 ∷ 0 ∷ 0 ∷ 0 ∷ 0 ∷ []) true
    ∷ call_compile host true false
    ∷ call_compile host true true
    ∷ []

abbrev fresh : Vm
fresh = record {
  insts = none;
  num_insts = 0;
  jitted = none;
  jitted_size = 0;
  ext_funcs = λ _. none;
  ext_func_names = λ _. none;
  bounds_check_enabled = true;
}

abbrev vm_or_fresh : Option Vm → Vm
vm_or_fresh none = fresh
vm_or_fresh (some vm) = vm

last : Vm
last = vm_or_fresh (calls history fresh).0

events : List (Event Block)
events = (calls history fresh).1

history-ends : calls history fresh ≡ (some last, events)
unfolding last events calls call load validate decode compile
history-ends = refl

fresh-made : create true true true ≡ some fresh
unfolding create
fresh-made = refl

calls-destroy_example :
    held_after same [] (create_events true true true ++ (events ++ destroy last)) ≡ some []
calls-destroy_example =
    calls-destroy true true true history fresh last events fresh-made history-ends
