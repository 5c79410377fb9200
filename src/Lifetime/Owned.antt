-- ===== src/Lifetime/Owned.antt =====
-- About what a machine holds (`struct ubpf_vm`, tools/ubpf/vm/ubpf_int.h), and `ubpf_load`, which adds to
-- it (tools/ubpf/vm/ubpf_vm.c).
use ve_bpf.Base.{
  ℕ, ◌≡◌, refl, ap, sym, ◌∙◌, Bool, true, false, Option, none, some, List, [], ◌∷◌, ◌++◌, ◌==◌,
  arith,
}
use mathlib.Core.Path.{subst}
use ve_bpf.Base.Held.{Event, held_after}
use ve_bpf.Ebpf.{Inst}
use ve_bpf.Vm.State.{Vm}
use ve_bpf.Vm.Load.{Loaded, loaded, not_loaded, load}
use ve_bpf.Vm.Load.Laws.{load-loaded}
use ve_bpf.Lifetime.{
  message_memory, free_message, load_failed, Block, vm_memory, funcs_memory, names_memory,
  insts_memory, buf_memory, pc_locs_memory, jumps_memory, mapping, destroy_fields, jitted_block,
  is_set, loaded_events, after_load,
}

abbrev pub same : Block → Block → Bool
same vm_memory vm_memory = true
same funcs_memory funcs_memory = true
same names_memory names_memory = true
same insts_memory insts_memory = true
same buf_memory buf_memory = true
same pc_locs_memory pc_locs_memory = true
same jumps_memory jumps_memory = true
same message_memory message_memory = true
same (mapping a) (mapping b) = a == b
same _ _ = false

-- What a machine holds.
abbrev pub owned_fields : Option ℕ → Bool → List Block
owned_fields none false = names_memory ∷ funcs_memory ∷ vm_memory ∷ []
owned_fields none true = insts_memory ∷ names_memory ∷ funcs_memory ∷ vm_memory ∷ []
owned_fields (some size) false = mapping size ∷ names_memory ∷ funcs_memory ∷ vm_memory ∷ []
owned_fields (some size) true =
    mapping size ∷ insts_memory ∷ names_memory ∷ funcs_memory ∷ vm_memory ∷ []

abbrev pub owned : Vm → List Block
owned vm = owned_fields (jitted_block vm.jitted vm.jitted_size) (is_set vm.insts)

pub destroy-owned :
    (jitted : Option ℕ) (insts : Bool)
    → held_after same (owned_fields jitted insts) (destroy_fields jitted insts true true) ≡ some []
unfolding destroy_fields
destroy-owned none false = refl
destroy-owned none true = refl
destroy-owned (some size) false = ground arith
destroy-owned (some size) true = ground arith

-- A machine without code has not been compiled.
abbrev pub IsOrdered : Vm → Type 0
IsOrdered vm = vm.insts ≡ none → vm.jitted ≡ none

-- The events lead from what one machine holds to what the other does, whatever follows.
abbrev pub Moves : Vm → Vm → List (Event Block) → Type 0
Moves vm vm' events =
    (more : List (Event Block))
    → held_after same (owned vm) (events ++ more) ≡ held_after same (owned vm') more

pub Moves-owned :
    (vm vm' : Vm) (blocks : List Block)
    → blocks ≡ owned vm'
    → (more : List (Event Block)) → held_after same blocks more ≡ held_after same (owned vm') more
Moves-owned vm vm' blocks e more = ap (λ (bs : List Block). held_after same bs more) e

pub owned-load :
    (vm vm' : Vm) (insts : List Inst)
    → vm.insts ≡ none
    → vm.jitted ≡ none
    → vm'.jitted ≡ vm.jitted
    → vm'.insts ≡ some insts
    → insts_memory ∷ owned vm ≡ owned vm'
owned-load vm vm' insts a b c d = ground arith

pub owned-compile :
    (vm vm' : Vm) (insts : List Inst) (code : List ℕ) (size : ℕ)
    → vm.jitted ≡ none
    → vm.insts ≡ some insts
    → vm'.jitted ≡ some code
    → vm'.jitted_size ≡ size
    → vm'.insts ≡ vm.insts
    → mapping size ∷ owned vm ≡ owned vm'
owned-compile vm vm' insts code size a b c d e = ground arith

pub unchanged : (vm vm' : Vm) → IsOrdered vm → vm ≡ vm' → IsOrdered vm' × Moves vm vm' []
unchanged vm vm' o e =
    (subst IsOrdered e o, λ more. ap (λ (v : Vm). held_after same (owned v) more) e)

pub load-Moves :
    (vm vm' : Vm) (code : List ℕ) (allocated : Bool) (l : Loaded)
    → IsOrdered vm
    → load vm code allocated ≡ l
    → after_load vm l ≡ some vm'
    → IsOrdered vm' × Moves vm vm' (loaded_events l ++ free_message (load_failed l))
load-Moves vm vm' code allocated (loaded w) o h e =
    let here : w ≡ vm' = cc in
    let (insts, empty, _, _, made) = load-loaded vm w code allocated h in
    let now : vm'.insts ≡ some insts = ap (λ (v : Vm). v.insts) (sym here ∙ made) in
    let kept : vm'.jitted ≡ vm.jitted = ap (λ (v : Vm). v.jitted) (sym here ∙ made) in
    (
      λ n. absurd (cc),
      λ more.
          Moves-owned vm vm' (insts_memory ∷ owned vm)
            (owned-load vm vm' insts empty (o empty) kept now) more,
    )
load-Moves vm vm' code allocated (not_loaded x) o h e = unchanged vm vm' o (cc)
