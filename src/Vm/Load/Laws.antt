-- ===== src/Vm/Load/Laws.antt =====
-- About what `ubpf_load` (tools/ubpf/vm/ubpf_vm.c) stores.
use mathlib.Core.Path.{subst, ◌≡⟨◌⟩◌, ◌∎}
use ve_bpf.Base.{
  ℕ, ◌%◌, ◌≡◌, refl, sym, ap, ◌∙◌, Bool, true, false, Option, none, some, List, arith, length,
}
use ve_bpf.Ebpf.{Inst}
use ve_bpf.Ebpf.Encoding.{insts_of_bytes, insts_bytes}
use ve_bpf.Ebpf.Encoding.RoundTrip.{AreInsts, insts_of_bytes-insts_bytes, length-insts_bytes}
use ve_bpf.Vm.State.{Vm}
use ve_bpf.Vm.Validate.{valid, invalid, Checked, check_inst, validate}
use ve_bpf.Vm.Validate.Sound.{IsValidated, validate-IsValidated}
use ve_bpf.Vm.Load.{load, load_code, load_insts, store_code, loaded}

store_code-loaded :
    (vm vm' : Vm) (insts : List Inst) (allocated : Bool) (r : Checked (Unit {0}))
    → store_code vm insts allocated r ≡ loaded vm'
    → (r ≡ valid tt) × (vm' ≡ record vm { insts = some insts; num_insts = length insts })
unfolding store_code
store_code-loaded vm vm' insts allocated (invalid e) h = cc
store_code-loaded vm vm' insts false (valid u) h = cc
store_code-loaded vm vm' insts true (valid u) h = (refl, cc)

-- The machine after a successful load.
abbrev pub with_code : Vm → List Inst → Vm
with_code vm insts = record vm { insts = some insts; num_insts = length insts }

load_insts-loaded :
    (vm vm' : Vm) (allocated : Bool) (o : Option (List Inst))
    → load_insts vm allocated o ≡ loaded vm'
    → (insts : List Inst) × (o ≡ some insts)
      × (validate vm insts ≡ valid tt)
      × (vm' ≡ with_code vm insts)
unfolding load_insts
load_insts-loaded vm vm' allocated none h = cc
load_insts-loaded vm vm' allocated (some insts) h =
    let (ok, same) = store_code-loaded vm vm' insts allocated (validate vm insts) h in
    (insts, refl, ok, same)

load_code-loaded :
    (vm vm' : Vm) (code : List ℕ) (allocated : Bool) (o : Option (List Inst))
    → load_code vm code allocated o ≡ loaded vm'
    → (o ≡ none) × (load_insts vm allocated (insts_of_bytes code) ≡ loaded vm')
unfolding load_code
load_code-loaded vm vm' code allocated none h = (refl, ground arith)
load_code-loaded vm vm' code allocated (some is) h = cc

check_inst-with_code :
    (vm : Vm) (insts : List Inst) (i : ℕ) (x : Inst)
    → check_inst (with_code vm insts) insts i x ≡ check_inst vm insts i x
unfolding check_inst
check_inst-with_code vm insts i x = refl

IsValidated-with_code :
    (vm : Vm) (insts : List Inst) → IsValidated vm insts → IsValidated (with_code vm insts) insts
IsValidated-with_code vm insts v = record {
  short = v.short;
  first = v.first;
  checked = λ i x e o. rw check_inst-with_code (v.checked i x e o);
  follows = v.follows;
}

-- When `ubpf_load` succeeds, the machine had no code, the code that it now has is what its bytes
-- are read as and is validated, and nothing else of the machine has changed.
pub load-loaded :
    (vm vm' : Vm) (code : List ℕ) (allocated : Bool)
    → load vm code allocated ≡ loaded vm'
    → (insts : List Inst) × (vm.insts ≡ none)
      × (insts_of_bytes code ≡ some insts)
      × IsValidated vm' insts
      × (vm' ≡ with_code vm insts)
unfolding load
load-loaded vm vm' code allocated h =
    let (empty, rest) = load_code-loaded vm vm' code allocated vm.insts h in
    let (insts, read, ok, same) = load_insts-loaded vm vm' allocated (insts_of_bytes code) rest in
    (
      insts,
      empty,
      read,
      subst (λ (v : Vm). IsValidated v insts) (sym same)
          (IsValidated-with_code vm insts (validate-IsValidated vm insts ok)),
      same,
    )

load_code-read :
    (vm : Vm) (code : List ℕ)
    → length code % 8 ≡ 0
    → load_code vm code true none ≡ load_insts vm true (insts_of_bytes code)
unfolding load_code
load_code-read vm code h = ground arith

load_insts-stored :
    (vm : Vm) (is : List Inst)
    → validate vm is ≡ valid tt
    → load_insts vm true (some is) ≡ loaded (with_code vm is)
unfolding load_insts
load_insts-stored vm is ok = rw ok

load-read :
    (vm : Vm) (is : List Inst)
    → vm.insts ≡ none
    → load vm (insts_bytes is) true ≡ load_insts vm true (insts_of_bytes (insts_bytes is))
unfolding load
load-read vm is empty =
    ap (load_code vm (insts_bytes is) true) empty
    ∙ load_code-read vm (insts_bytes is) (omega (arith, length-insts_bytes is))

-- The bytes of instructions that `validate` passes, with fields of their C widths, are loaded
-- into a machine without code as these instructions, if memory is allocated.
pub load-insts_bytes :
    (vm : Vm) (is : List Inst)
    → vm.insts ≡ none
    → AreInsts is
    → validate vm is ≡ valid tt
    → load vm (insts_bytes is) true ≡ loaded (with_code vm is)
load-insts_bytes vm is empty fields ok =
    load vm (insts_bytes is) true
    ≡⟨ load-read vm is empty ⟩ load_insts vm true (insts_of_bytes (insts_bytes is))
    ≡⟨ ap (load_insts vm true) (insts_of_bytes-insts_bytes is fields) ⟩ load_insts vm true (some is)
    ≡⟨ load_insts-stored vm is ok ⟩ loaded (with_code vm is) ∎
