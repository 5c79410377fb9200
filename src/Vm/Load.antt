-- ===== src/Vm/Load.antt =====
-- `ubpf_load` (tools/ubpf/vm/ubpf_vm.c). The code is a buffer of `code_len` bytes.
pub mod Laws
use ve_bpf.Base.{
  ℕ, ◌%◌, Bool, true, false, not, Option, none, some, List, ◌==◌, if◌then◌else◌, length,
}
use ve_bpf.Ebpf.{Inst}
use ve_bpf.Ebpf.Encoding.{insts_of_bytes}
use ve_bpf.Vm.State.{Vm}
use ve_bpf.Vm.Validate.{Invalid, Checked, valid, invalid, validate}

-- The messages of `ubpf_load`.
pub data LoadError : Type 0 where
  already_loaded bad_length out_of_memory : LoadError
  not_valid : Invalid → LoadError

-- The new machine with the result 0, or the old one with -1 and a message.
pub data Loaded : Type 0 where
  loaded : Vm → Loaded
  not_loaded : LoadError → Loaded

-- After `validate`: the allocation, and the copy of the code.
unfoldable pub store_code : Vm → List Inst → Bool → Checked (Unit {0}) → Loaded
store_code vm insts allocated (invalid e) = not_loaded (not_valid e)
store_code vm insts false (valid _) = not_loaded out_of_memory
store_code vm insts true (valid _) =
    loaded (record vm { insts = some insts; num_insts = length insts })

unfoldable pub load_insts : Vm → Bool → Option (List Inst) → Loaded
unfolding store_code
load_insts vm allocated none = not_loaded bad_length
load_insts vm allocated (some insts) = store_code vm insts allocated (validate vm insts)

unfoldable pub load_code : Vm → List ℕ → Bool → Option (List Inst) → Loaded
unfolding load_insts
load_code vm code allocated (some _) = not_loaded already_loaded
load_code vm code allocated none =
    if not (length code % 8 == 0)
    then not_loaded bad_length
    else load_insts vm allocated (insts_of_bytes code)

-- `allocated` says whether `malloc` succeeds.
unfoldable pub load : Vm → List ℕ → Bool → Loaded
unfolding load_code validate insts_of_bytes
load vm code allocated = load_code vm code allocated vm.insts
