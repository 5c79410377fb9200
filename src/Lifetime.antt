-- ===== src/Lifetime.antt =====
-- `ubpf_create` and `ubpf_destroy` (tools/ubpf/vm/ubpf_vm.c), with what the calls between them allocate
-- and free: `ubpf_load`, and `ubpf_compile` (tools/ubpf/vm/ubpf_jit_x86_64.c).
pub mod Owned
pub mod Balance
mod Tests
use ve_bpf.Base.{
  if◌then◌else◌, ℕ, Bool, true, false, Option, none, some, List, [], ◌∷◌, ◌++◌, length,
}
use ve_bpf.Base.Held.{Event, acquire, release, no_effect}
use ve_bpf.Ebpf.{Inst}
use ve_bpf.Vm.State.{Vm}
use ve_bpf.Vm.Load.{Loaded, loaded, not_loaded, load}
use ve_bpf.Jit.State.{Emitted, emitted, unknown_instruction, aborted}
use ve_bpf.Jit.Translate.{Host, translate}
use ve_bpf.Jit.Resolve.{resolve_jumps}
use ve_bpf.Jit.Compile.{Compiled, compiled, not_compiled, aborts, compile, initial}

-- What is allocated: the fields of the machine, those of the state of the compiler, and the mapping of
-- its code, with its size.
pub data Block : Type 0 where
  vm_memory funcs_memory names_memory insts_memory : Block
  buf_memory pc_locs_memory jumps_memory : Block
  message_memory : Block  -- `*errmsg`
  mapping : ℕ → Block

-- `free` of a pointer that may be null.
abbrev pub free : Bool → Block → Event Block
free true block = release block
free false block = no_effect

abbrev pub unmap : Option ℕ → Event Block
unmap none = no_effect
unmap (some size) = release (mapping size)

-- `ubpf_destroy` of a machine with these fields.
unfoldable pub destroy_fields : Option ℕ → Bool → Bool → Bool → List (Event Block)
destroy_fields jitted insts funcs names =
    unmap jitted
    ∷ free insts insts_memory
    ∷ free funcs funcs_memory
    ∷ free names names_memory
    ∷ release vm_memory
    ∷ []

abbrev pub jitted_block : Option (List ℕ) → ℕ → Option ℕ
jitted_block none size = none
jitted_block (some code) size = some size

abbrev pub is_set {ℓ} : {A : Type ℓ} → Option A → Bool
is_set none = false
is_set (some _) = true

unfoldable pub destroy : Vm → List (Event Block)
unfolding destroy_fields
destroy vm = destroy_fields (jitted_block vm.jitted vm.jitted_size) (is_set vm.insts) true true

-- `ubpf_create`, where the arguments say which of its allocations succeed.
unfoldable pub create_events : Bool → Bool → Bool → List (Event Block)
unfolding destroy_fields
create_events false funcs names = []
create_events true false names = acquire vm_memory ∷ destroy_fields none false false false
create_events true true false =
    acquire vm_memory ∷ acquire funcs_memory ∷ destroy_fields none false true false
create_events true true true = acquire vm_memory ∷ acquire funcs_memory ∷ acquire names_memory ∷ []

-- `ubpf_load` fails before its allocation or by it; `ubpf_error` then allocates the message.
abbrev pub loaded_events : Loaded → List (Event Block)
loaded_events (loaded vm) = acquire insts_memory ∷ []
loaded_events (not_loaded e) = acquire message_memory ∷ []

-- The end of `ubpf_compile`, from `out` on.
abbrev pub free_state : List (Event Block) → List (Event Block)
free_state more = release buf_memory ∷ release pc_locs_memory ∷ release jumps_memory ∷ more

-- `munmap(MAP_FAILED, jitted_size)`: refused, since the address is no multiple of the page size.
abbrev pub unmap_failed : Event Block
unmap_failed = no_effect

-- From `translate` on.
unfoldable pub translated_events : Bool → Bool → Emitted → List (Event Block)
translated_events mapped protected (unknown_instruction i) = acquire message_memory ∷ free_state []
translated_events mapped protected aborted = []
translated_events false protected (emitted s) =
    acquire message_memory ∷ free_state (unmap_failed ∷ [])
translated_events true false (emitted s) =
    acquire (mapping (length s.buf))
    ∷ acquire message_memory
    ∷ free_state (release (mapping (length s.buf)) ∷ [])
translated_events true true (emitted s) = acquire (mapping (length s.buf)) ∷ free_state []

unfoldable pub compile_events :
    Host → Vm → Bool → Bool → Option (List ℕ) → Option (List Inst) → List (Event Block)
unfolding translated_events
compile_events host vm mapped protected (some code) insts = []
compile_events host vm mapped protected none none = acquire message_memory ∷ []
compile_events host vm mapped protected none (some insts) =
    acquire buf_memory
    ∷ acquire pc_locs_memory
    ∷ acquire jumps_memory
    ∷ translated_events mapped protected (translate host vm insts initial)

-- The calls between `ubpf_create` and `ubpf_destroy`. A failed `assert` ends the process: none.
pub data Call : Type 0 where
  call_load : List ℕ → Bool → Call
  call_compile : Host → Bool → Bool → Call

abbrev pub after_load : Vm → Loaded → Option Vm
after_load vm (loaded vm') = some vm'
after_load vm (not_loaded e) = some vm

abbrev pub after_compile : Vm → Compiled → Option Vm
after_compile vm (compiled vm' code) = some vm'
after_compile vm (not_compiled e) = some vm
after_compile vm aborts = none

abbrev pub load_failed : Loaded → Bool
load_failed (loaded vm) = false
load_failed (not_loaded e) = true

abbrev pub compile_failed : Compiled → Bool
compile_failed (not_compiled e) = true
compile_failed _ = false

-- The caller frees the message of a call that has failed.
abbrev pub free_message : Bool → List (Event Block)
free_message failed = if failed then release message_memory ∷ [] else []

unfoldable pub call : Call → Vm → Option Vm × List (Event Block)
call (call_load code allocated) vm =
    let result = load vm code allocated in
    (after_load vm result, loaded_events result ++ free_message (load_failed result))
call (call_compile host mapped protected) vm =
    let result = compile host vm mapped protected in
    (
      after_compile vm result,
      compile_events host vm mapped protected vm.jitted vm.insts
          ++ free_message (compile_failed result),
    )

abbrev pub then_events :
    List (Event Block) → Option Vm × List (Event Block) → Option Vm × List (Event Block)
then_events events (o, more) = (o, events ++ more)

abbrev pub resume :
    (Vm → Option Vm × List (Event Block))
    → Option Vm × List (Event Block)
    → Option Vm × List (Event Block)
resume rest (none, events) = (none, events)
resume rest (some vm, events) = then_events events (rest vm)

unfoldable pub calls : List Call → Vm → Option Vm × List (Event Block)
calls [] vm = (some vm, [])
calls (c ∷ cs) vm = resume (calls cs) (call c vm)
