-- ===== src/Vm/State.antt =====
-- `struct ubpf_vm` (tools/ubpf/vm/ubpf_int.h), and the functions of ubpf_vm.c that create it and
-- keep its table of external functions.
pub mod Laws
use ve_bpf.Base.{
  ℕ, zero, suc, ◌+◌, Bool, true, false, ◌&&◌, Option, none, some, List, [], ◌∷◌, leb, ◌==◌,
  if◌then◌else◌,
}
use ve_bpf.Ebpf.{Inst}
use ve_bpf.Vm.Memory.{Memory}

abbrev pub max_insts : ℕ
max_insts = 65536

abbrev pub stack_size : ℕ
stack_size = 128

abbrev pub max_ext_funcs : ℕ
max_ext_funcs = 64

-- An `ext_func`: the address that the pointer holds, and what a call with five arguments returns
-- and leaves in memory. Its code is the user's; a call is taken to return.
pub record ExtFunc : Type 0 where
  pub address : ℕ
  pub apply : ℕ → ℕ → ℕ → ℕ → ℕ → Memory → ℕ × Memory

-- The bytes of a C string, without the closing NUL.
abbrev pub Name : Type 0
Name = List ℕ

-- `insts` and `jitted` are null pointers at `none`. The two arrays have `max_ext_funcs` entries.
pub record Vm : Type 0 where
  pub insts : Option (List Inst)
  pub num_insts : ℕ  -- uint16_t
  pub jitted : Option (List ℕ)
  pub jitted_size : ℕ
  pub ext_funcs : ℕ → Option ExtFunc
  pub ext_func_names : ℕ → Option Name
  pub bounds_check_enabled : Bool

-- `ubpf_create` where its three allocations succeed; `none` where one fails.
unfoldable pub create : Bool → Bool → Bool → Option Vm
create vm_allocated funcs_allocated names_allocated =
    if vm_allocated && (funcs_allocated && names_allocated)
    then some (record {
      insts = none;
      num_insts = 0;
      jitted = none;
      jitted_size = 0;
      ext_funcs = λ _. none;
      ext_func_names = λ _. none;
      bounds_check_enabled = true;
    })
    else none

-- `toggle_bounds_check`.
unfoldable pub toggle_bounds_check : Vm → Bool → Vm × Bool
toggle_bounds_check vm enable =
    (record vm { bounds_check_enabled = enable }, vm.bounds_check_enabled)

abbrev pub put {ℓ} : {A : Type ℓ} → (ℕ → A) → ℕ → A → ℕ → A
put f i v j = if i == j then v else f j

-- `ubpf_register`; the result `false` is -1. A null `fn` or `name` is `none`.
unfoldable pub register : Vm → ℕ → Option Name → Option ExtFunc → Vm × Bool
register vm idx name fn = if leb max_ext_funcs idx then (vm, false) else (
  record vm {
    ext_funcs = put vm.ext_funcs idx fn;
    ext_func_names = put vm.ext_func_names idx name;
  },
  true,
)

-- `!strcmp(a, b)`.
unfoldable pub str_eq : Name → Name → Bool
str_eq [] [] = true
str_eq [] (y ∷ ys) = false
str_eq (x ∷ xs) [] = false
str_eq (x ∷ xs) (y ∷ ys) = x == y && str_eq xs ys

abbrev pub name_is : Option Name → Name → Bool
name_is none name = false
name_is (some other) name = str_eq other name

-- The loop of `ubpf_lookup_registered_function` from index `i`, with `rounds` left; `none` is -1.
unfoldable pub lookup_from : (ℕ → Option Name) → Name → ℕ → ℕ → Option ℕ
lookup_from names name zero i = none
lookup_from names name (suc rounds) i =
    let rest = lookup_from names name rounds (i + 1) in
    if name_is (names i) name then some i else rest

unfoldable pub lookup_registered_function : Vm → Name → Option ℕ
lookup_registered_function vm name = lookup_from vm.ext_func_names name max_ext_funcs 0
