-- ===== src/Driver/Options.antt =====
-- The options of `main` (tools/ubpf/vm/test.c), as `getopt_long` gives them.
use ve_bpf.Base.{ℕ, Bool, true, Option, none, some, List, [], ◌∷◌}
use ve_bpf.Vm.State.{Name}
use ve_bpf.Jit.Registers.{set_register_offset}

pub data Opt : Type 0 where
  opt_mem : Name → Opt
  opt_jit opt_help opt_unknown : Opt
  opt_register_offset : ℕ → Opt

-- What the options set, the register map of the process included.
pub record Settings : Type 0 where
  pub mem_filename : Option Name
  pub jit : Bool
  pub register_map : ℕ → ℕ

-- The loop goes on to the arguments, or `main` returns, or the register map is read outside.
pub data Chosen : Type 0 where
  go_on : Settings → Chosen
  return_code : ℕ → Chosen
  outside_map : Chosen

module _ (rand_r : ℕ → ℕ × ℕ) where
  unfoldable pub parse_options : List Opt → Settings → Chosen
  parse_options [] set = go_on set
  parse_options (opt_mem path ∷ opts) set =
      parse_options opts (record set { mem_filename = some path })
  parse_options (opt_jit ∷ opts) set = parse_options opts (record set { jit = true })
  parse_options (opt_register_offset x ∷ opts) set =
      elim (set_register_offset rand_r x set.register_map) [
        | none ↦ outside_map
        | some map ↦ parse_options opts (record set { register_map = map })
      ]
  parse_options (opt_help ∷ opts) set = return_code 0
  parse_options (opt_unknown ∷ opts) set = return_code 1
