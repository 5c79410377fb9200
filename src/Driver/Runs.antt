-- ===== src/Driver/Runs.antt =====
-- About what `main` (tools/ubpf/vm/test.c) prints.
use ve_bpf.Base.{
  ℕ, ◌≡◌, ◌≢◌, ◌++◌, refl, sym, ap, ◌∙◌, Bool, true, false, Option, none, some, List, [], ◌∷◌,
  length, arith, if◌then◌else◌,
}
use ve_bpf.Ebpf.Encoding.RoundTrip.{insts_of_bytes-AreInsts}
use ve_bpf.Vm.State.{Vm, Name, create}
use ve_bpf.Vm.Load.{Loaded, loaded, not_loaded, load}
use ve_bpf.Vm.Load.Laws.{load-loaded}
use ve_bpf.Vm.Exec.{Result, result_value, exec}
use ve_bpf.Elf.File.{Parsed, parsed, failed, outside}
use ve_bpf.Elf.Load.{load_elf}
use ve_bpf.Elf.Ensures.{IsFile}
use ve_bpf.Elf.Whole.{IsLoaded, load_elf-IsLoaded}
use ve_bpf.Driver.ReadFile.{ReadFile, contents, not_read, null_read, read_on, readfile}
use ve_bpf.Driver.Options.{Opt, Settings, go_on, parse_options}
use ve_bpf.Driver.Main.{
  Process, prints, Buffer, place, LoadStep, ready, refused, stray, from_elf, from_raw, is_elf,
  register_functions, load_step, run_interpreted, run_vm, with_vm, with_mem, with_code,
  with_settings, max_file, main,
}

from_raw-ready : (l : Loaded) (vm : Vm) → from_raw l ≡ ready vm → l ≡ loaded vm
from_raw-ready (loaded w) vm h = ground arith
from_raw-ready (not_loaded e) vm h = absurd (cc)

from_elf-ready : (l : Parsed Vm) (vm : Vm) → from_elf l ≡ ready vm → l ≡ parsed vm
from_elf-ready (parsed w) vm h = ground arith
from_elf-ready (failed e) vm h = absurd (cc)
from_elf-ready (outside w) vm h = absurd (cc)

run_interpreted-prints :
    {S : Type 0} (p : Process S) (r : Result) (v : ℕ)
    → run_interpreted p r ≡ prints v
    → result_value r ≡ some v
run_interpreted-prints p r v h = ground arith

-- A file that begins with the magic of ELF.
abbrev pub magic : List ℕ
magic = 0x7f ∷ 0x45 ∷ 0x4c ∷ 0x46 ∷ []

is_elf-magic : (code : List ℕ) → is_elf code ≡ true → (rest : List ℕ) × (code ≡ magic ++ rest)
unfolding is_elf
is_elf-magic (a ∷ b ∷ c ∷ d ∷ rest) h =
    let e1 : a ≡ 0x7f = ground arith in
    let e2 : b ≡ 0x45 = ground arith in
    let e3 : c ≡ 0x4c = ground arith in
    let e4 : d ≡ 0x46 = ground arith in (rest, rw (e1, e2, e3, e4) refl)
is_elf-magic _ h = absurd (cc)

no_magic : (code : List ℕ) → is_elf code ≡ false → (rest : List ℕ) → code ≢ magic ++ rest
unfolding is_elf
no_magic code h rest e = let elf : is_elf code ≡ true = ap is_elf e in cc

-- `after` is `vm` with the code of a file: as an ELF file if it begins with the magic, and as plain code
-- otherwise.
pub data IsCode {S : Type 0} (p : Process S) (vm : Vm) (code : List ℕ) (after : Vm) : Type 0 where
  elf_code :
      (rest : List ℕ)
      → code ≡ magic ++ rest
      → load_elf vm code p.copy_allocated p.insts_allocated ≡ parsed after
      → IsCode p vm code after
  plain_code :
      ((rest : List ℕ) → code ≢ magic ++ rest)
      → load vm code p.insts_allocated ≡ loaded after
      → IsCode p vm code after

-- The context: none without --mem, and with it the content of the file, at its address.
pub data IsBuffer {S : Type 0} (p : Process S) (code_path : Name)
    : Option Name → Buffer → Type 0 where
  no_file : IsBuffer p code_path none (0, [])
  from_file :
      {path : Name} {bytes : List ℕ}
      → readfile (p.io_after code_path) p.mem_allocated path max_file ≡ contents bytes
      → IsBuffer p code_path (some path) (p.mem_address, bytes)

-- The value is what `ubpf_exec` returns, on the context, on a machine that the code has been loaded into.
pub record Executes {S : Type 0} (p : Process S) (fuel : ℕ) (code_path : Name)
    (mem_path : Option Name) (code : List ℕ) (v : ℕ) : Type 0 where
  pub vm : Vm
  pub after : Vm
  pub buffer : Buffer
  pub context : IsBuffer p code_path mem_path buffer
  pub created : create p.vm_allocated p.funcs_allocated p.names_allocated ≡ some vm
  pub loads : IsCode p (register_functions p vm) code after
  pub made : IsLoaded (register_functions p vm) after
  pub result :
      result_value (
        exec fuel after buffer.0
          (length buffer.1)
          p.stack
          p.is_accessible
          p.garbage
          (place p.memory buffer))
      ≡ some v

module _ {S : Type 0} (p : Process S) (fuel : ℕ) (set : Settings) (code : List ℕ) (v : ℕ)
    (file : IsFile code) (interpreted : set.jit ≡ false) where
  choice-IsCode :
      (elf : Bool) (vm vm' : Vm)
      → is_elf code ≡ elf
      → (if elf
          then from_elf (load_elf vm code p.copy_allocated p.insts_allocated)
          else from_raw (load vm code p.insts_allocated))
        ≡ ready vm'
      → IsCode p vm code vm'
  choice-IsCode true vm vm' e h =
      let (rest, begins) = is_elf-magic code e in elf_code rest begins (from_elf-ready _ vm' h)
  choice-IsCode false vm vm' e h = plain_code (no_magic code e) (from_raw-ready _ vm' h)

  IsCode-IsLoaded : (vm vm' : Vm) → IsCode p vm code vm' → IsLoaded vm vm'
  IsCode-IsLoaded vm vm' (elf_code rest begins h) =
      load_elf-IsLoaded vm code p.copy_allocated p.insts_allocated file vm' h
  IsCode-IsLoaded vm vm' (plain_code other h) =
      let (insts, empty, same, validated, made) = load-loaded vm vm' code p.insts_allocated h in
      record {
        code = insts;
        empty = empty;
        fields = insts_of_bytes-AreInsts code insts file.bytes same;
        validated = validated;
        made = made;
      }

  run_vm-prints :
      (buffer : Buffer) (l : LoadStep)
      → run_vm p fuel set buffer l ≡ prints v
      → (after : Vm) × (l ≡ ready after)
        × (result_value (
              exec fuel after buffer.0
                (length buffer.1)
                p.stack
                p.is_accessible
                p.garbage
                (place p.memory buffer))
            ≡ some v)
  unfolding run_vm
  run_vm-prints buffer refused h = absurd (cc)
  run_vm-prints buffer stray h = absurd (cc)
  run_vm-prints buffer (ready after) h = (after, refl, run_interpreted-prints p _ v (ground arith))

  module _ (code_path : Name) (mem_path : Option Name) where
    with_vm-prints :
        (buffer : Buffer) (o : Option Vm)
        → IsBuffer p code_path mem_path buffer
        → create p.vm_allocated p.funcs_allocated p.names_allocated ≡ o
        → with_vm p fuel set code buffer o ≡ prints v
        → Executes p fuel code_path mem_path code v
    unfolding with_vm load_step
    with_vm-prints buffer none at made h = absurd (cc)
    with_vm-prints buffer (some vm) at made h =
        let (after, ok, result) =
          run_vm-prints buffer (load_step p (register_functions p vm) code) h in
        let loads = choice-IsCode (is_elf code) (register_functions p vm) after refl ok in
        record {
          vm = vm;
          after = after;
          buffer = buffer;
          context = at;
          created = made;
          loads = loads;
          made = IsCode-IsLoaded (register_functions p vm) after loads;
          result = result;
        }

    with_mem-prints :
        (mem : ReadFile)
        → ((bytes : List ℕ)
            → mem ≡ contents bytes
            → IsBuffer p code_path mem_path (p.mem_address, bytes))
        → with_mem p fuel set code mem ≡ prints v
        → Executes p fuel code_path mem_path code v
    unfolding with_mem
    with_mem-prints (contents bytes) at h =
        with_vm-prints (p.mem_address, bytes) _ (at bytes refl) refl h
    with_mem-prints (not_read e) at h = absurd (cc)
    with_mem-prints null_read at h = absurd (cc)
    with_mem-prints read_on at h = absurd (cc)

  with_code-prints :
      (code_path : Name) (mem_path : Option Name)
      → with_code p fuel set code_path mem_path (contents code) ≡ prints v
      → Executes p fuel code_path mem_path code v
  unfolding with_code
  with_code-prints code_path none h = with_vm-prints code_path none (0, []) _ no_file refl h
  with_code-prints code_path (some path) h =
      with_mem-prints code_path (some path) _ (λ bytes e. from_file e) h

  -- Let `main` without --jit read the code, and print a value. Then a machine has been created,
  -- its functions registered, and the code loaded into it, with fields of their C widths and
  -- validated: by `ubpf_load_elf` if it begins with the ELF magic, and by `ubpf_load` if not. The
  -- value is what `ubpf_exec` returns on that machine: on a null context of length 0 without
  -- --mem, and with it on the content of that file, read after the code and placed in memory at
  -- its address.
  pub main-Executes :
      (options : List Opt) (path : Name)
      → parse_options p.rand_r options
          (record { mem_filename = none; jit = false; register_map = p.register_map })
        ≡ go_on set
      → readfile p.io p.code_allocated path max_file ≡ contents code
      → main p fuel options (path ∷ []) ≡ prints v
      → Executes p fuel path set.mem_filename code v
  unfolding main with_settings
  main-Executes options path chosen read h =
      let all = sym (ap (with_settings p fuel (path ∷ [])) chosen) ∙ h in
      with_code-prints path set.mem_filename
        (sym (ap (with_code p fuel set path set.mem_filename) read) ∙ all)
