-- ===== src/Driver/Main.antt =====
-- `main` and `register_functions` (tools/ubpf/vm/test.c).
use ve_bpf.Base.{
  ℕ, ◌-◌, ◌*◌, ◌^◌, ◌%◌, bit_or, Bool, false, ◌&&◌, Option, none, some, List, [], ◌∷◌, leb, ◌==◌,
  if◌then◌else◌, length, get_elem?,
}
use ve_bpf.Vm.State.{Vm, ExtFunc, Name, create, register}
use ve_bpf.Vm.Memory.{Memory}
use ve_bpf.Vm.Load.{Loaded, loaded, not_loaded, load}
use ve_bpf.Vm.Exec.{Result, exec}
use ve_bpf.Elf.File.{Parsed, parsed, failed, outside}
use ve_bpf.Elf.Load.{load_elf}
use ve_bpf.Jit.Translate.{Host}
use ve_bpf.Jit.Compile.{Compiled, compiled, not_compiled, aborts, compile}
use ve_bpf.Driver.ReadFile.{Stdio, ReadFile, contents, not_read, null_read, read_on, readfile}
use ve_bpf.Driver.Options.{Opt, Settings, Chosen, go_on, return_code, outside_map, parse_options}

-- What `main` calls in the C library, the system and the machine: the streams, those once a file has been
-- read and closed, which may have been the standard input, `rand_r`, which
-- allocations succeed, where the memory file and the stack lie, which accesses C defines, what the registers and the memory hold
-- at first, the registered functions, and what the compiled code returns.
pub record Process (S : Type 0) : Type 0 where
  pub io : Stdio S
  pub io_after : Name → Stdio S
  pub rand_r : ℕ → ℕ × ℕ
  pub register_map : ℕ → ℕ
  pub code_allocated : Bool
  pub mem_allocated : Bool
  pub vm_allocated : Bool
  pub funcs_allocated : Bool
  pub names_allocated : Bool
  pub copy_allocated : Bool
  pub insts_allocated : Bool
  pub mapped : Bool
  pub protected : Bool
  pub mem_address : ℕ
  pub stack : ℕ
  pub is_accessible : ℕ → ℕ → Bool
  pub garbage : ℕ → ℕ
  pub memory : Memory
  pub gather_bytes_address : ℕ
  pub memfrob : ExtFunc
  pub trash_registers : ExtFunc
  pub sqrti : ExtFunc
  pub strcmp : ExtFunc
  pub stderr_address : ℕ
  pub fprintf_address : ℕ
  pub format_address : ℕ
  pub call : List ℕ → ℕ → ℕ → Memory → ℕ

-- `main` returns, prints a value and returns 0, is undefined in C, ends in `abort`, or runs on.
pub data Run : Type 0 where
  returns_code : ℕ → Run
  prints : ℕ → Run
  undefined_behaviour aborted runs_on : Run

-- The arguments are cut to `uint8_t`.
abbrev pub gather_bytes : ℕ → ℕ → ℕ → ℕ → ℕ → ℕ
gather_bytes a b c d e =
    bit_or (a % 256 * 2 ^ 32)
      (bit_or (b % 256 * 2 ^ 24) (bit_or (c % 256 * 2 ^ 16) (bit_or (d % 256 * 2 ^ 8) (e % 256))))

-- `!memcmp(code, ELFMAG, SELFMAG)`, where there are as many bytes.
unfoldable pub is_elf : List ℕ → Bool
is_elf (a ∷ b ∷ c ∷ d ∷ code) = (a == 0x7f) && ((b == 0x45) && ((c == 0x4c) && (d == 0x46)))
is_elf _ = false

-- The characters of the registered names.
abbrev name_gather_bytes : Name
name_gather_bytes = 103 ∷ 97 ∷ 116 ∷ 104 ∷ 101 ∷ 114 ∷ 95 ∷ 98 ∷ 121 ∷ 116 ∷ 101 ∷ 115 ∷ []

abbrev name_memfrob : Name
name_memfrob = 109 ∷ 101 ∷ 109 ∷ 102 ∷ 114 ∷ 111 ∷ 98 ∷ []

abbrev name_trash_registers : Name
name_trash_registers =
    116 ∷ 114 ∷ 97 ∷ 115 ∷ 104 ∷ 95 ∷ 114 ∷ 101 ∷ 103 ∷ 105 ∷ 115 ∷ 116 ∷ 101 ∷ 114 ∷ 115 ∷ []

abbrev name_sqrti : Name
name_sqrti = 115 ∷ 113 ∷ 114 ∷ 116 ∷ 105 ∷ []

abbrev name_strcmp_ext : Name
name_strcmp_ext = 115 ∷ 116 ∷ 114 ∷ 99 ∷ 109 ∷ 112 ∷ 95 ∷ 101 ∷ 120 ∷ 116 ∷ []

-- The buffer with the memory file; its address is null if there is none.
abbrev pub Buffer : Type 0
Buffer = ℕ × List ℕ

abbrev pub place : Memory → Buffer → Memory
place memory (at, bytes) a =
    if leb at a then elim (get_elem? bytes (a - at)) [ none ↦ memory a | some b ↦ b ] else memory a

-- The code, or how `main` ends.
pub data LoadStep : Type 0 where
  ready : Vm → LoadStep
  refused stray : LoadStep

abbrev pub from_elf : Parsed Vm → LoadStep
from_elf (parsed vm) = ready vm
from_elf (failed e) = refused
from_elf (outside w) = stray

abbrev pub from_raw : Loaded → LoadStep
from_raw (loaded vm) = ready vm
from_raw (not_loaded e) = refused

abbrev pub max_file : ℕ
max_file = 1024 * 1024

module _ {S : Type 0} (p : Process S) where
  unfoldable pub register_functions : Vm → Vm
  register_functions vm =
      let gather : ExtFunc = record {
        address = p.gather_bytes_address;
        apply = λ a b c d e memory. (gather_bytes a b c d e, memory);
      } in
      let vm1 = (register vm 0 (some name_gather_bytes) (some gather)).0 in
      let vm2 = (register vm1 1 (some name_memfrob) (some p.memfrob)).0 in
      let vm3 = (register vm2 2 (some name_trash_registers) (some p.trash_registers)).0 in
      let vm4 = (register vm3 3 (some name_sqrti) (some p.sqrti)).0 in
      (register vm4 4 (some name_strcmp_ext) (some p.strcmp)).0

  unfoldable pub load_step : Vm → List ℕ → LoadStep
  load_step vm code =
      if is_elf code
      then from_elf (load_elf vm code p.copy_allocated p.insts_allocated)
      else from_raw (load vm code p.insts_allocated)

  abbrev pub host_of : Settings → Host
  host_of set = record {
    register_map = set.register_map;
    stderr_address = p.stderr_address;
    fprintf_address = p.fprintf_address;
    format_address = p.format_address;
  }

  abbrev pub run_compiled : Buffer → Compiled → Run
  run_compiled buffer (compiled vm code) =
      prints (p.call code buffer.0 (length buffer.1) (place p.memory buffer))
  run_compiled buffer (not_compiled e) = returns_code 1
  run_compiled buffer aborts = aborted

  -- The result is printed as `ubpf_exec` returns it.
  abbrev pub run_interpreted : Result → Run
  run_interpreted (Result.returns v memory) = prints v
  run_interpreted (Result.faults f memory) = prints (2 ^ 64 - 1)
  run_interpreted Result.undefined = undefined_behaviour
  run_interpreted Result.out_of_fuel = runs_on

  -- `fuel` bounds the rounds of `ubpf_exec`.
  unfoldable pub run_vm : ℕ → Settings → Buffer → LoadStep → Run
  run_vm fuel set buffer refused = returns_code 1
  run_vm fuel set buffer stray = undefined_behaviour
  run_vm fuel set buffer (ready vm) =
      if set.jit
      then run_compiled buffer (compile (host_of set) vm p.mapped p.protected)
      else run_interpreted (
          exec fuel vm buffer.0 (length buffer.1) p.stack p.is_accessible p.garbage
            (place p.memory buffer))

  unfoldable pub with_vm : ℕ → Settings → List ℕ → Buffer → Option Vm → Run
  with_vm fuel set code buffer none = returns_code 1
  with_vm fuel set code buffer (some vm) =
      run_vm fuel set buffer (load_step (register_functions vm) code)

  unfoldable pub with_mem : ℕ → Settings → List ℕ → ReadFile → Run
  with_mem fuel set code (contents bytes) =
      with_vm fuel set code (p.mem_address, bytes)
        (create p.vm_allocated p.funcs_allocated p.names_allocated)
  with_mem fuel set code (not_read e) = returns_code 1
  with_mem fuel set code null_read = undefined_behaviour
  with_mem fuel set code read_on = runs_on

  unfoldable pub with_code : ℕ → Settings → Name → Option Name → ReadFile → Run
  with_code fuel set code_path none (contents code) =
      with_vm fuel set code (0, []) (create p.vm_allocated p.funcs_allocated p.names_allocated)
  with_code fuel set code_path (some path) (contents code) =
      with_mem fuel set code (readfile (p.io_after code_path) p.mem_allocated path max_file)
  with_code fuel set code_path path (not_read e) = returns_code 1
  with_code fuel set code_path path null_read = undefined_behaviour
  with_code fuel set code_path path read_on = runs_on

  unfoldable pub with_settings : ℕ → List Name → Chosen → Run
  with_settings fuel (path ∷ []) (go_on set) =
      with_code fuel set path set.mem_filename (readfile p.io p.code_allocated path max_file)
  with_settings fuel arguments (go_on set) = returns_code 1
  with_settings fuel arguments (return_code n) = returns_code n
  with_settings fuel arguments outside_map = undefined_behaviour

  -- The options and the other arguments, as `getopt_long` tells them apart.
  unfoldable pub main : ℕ → List Opt → List Name → Run
  main fuel options arguments = with_settings fuel arguments (
      parse_options p.rand_r options
        (record { mem_filename = none; jit = false; register_map = p.register_map }))
