-- ===== src/Driver/Tests.antt =====
-- A run of tools/ubpf/vm/test.c on a small program.
use ve_bpf.Base.{
  ap, ◌∙◌, ℕ, ◌+◌, ◌^◌, ◌≡◌, refl, Bool, true, false, ◌||◌, none, some, List, [], ◌∷◌, ltb, length,
  take, drop, arith,
}
use ve_bpf.Vm.State.{Vm, ExtFunc, Name, str_eq, create, register}
use ve_bpf.Ebpf.Opcode.{decode}
use ve_bpf.Ebpf.{Inst}
use ve_bpf.Ebpf.Encoding.{inst_bytes, insts_bytes}
use ve_bpf.Vm.Validate.{valid, validate}
use ve_bpf.Vm.Load.{load}
use ve_bpf.Vm.Exec.{exec, step}
use ve_bpf.Vm.Alu.{alu64}
use ve_bpf.Elf.Ensures.{IsFile}
use ve_bpf.Jit.Registers.{register_map}
use ve_bpf.Driver.ReadFile.{Stdio, contents, not_read, too_large, readfile}
use ve_bpf.Driver.Files.{IsStream, readfile-content}
use ve_bpf.Driver.Options.{opt_mem, Settings, go_on, parse_options}
use ve_bpf.Driver.Main.{
  Process, prints, with_settings, with_code, with_mem, with_vm, run_vm, load_step,
  register_functions, is_elf, max_file, main,
}
use ve_bpf.Driver.Runs.{Executes, main-Executes}

-- What is left of a file, and whether its end has been seen.
abbrev File : Type 0
File = List ℕ × Bool

-- mov r0, 5; exit.
abbrev program : List ℕ
program = 0xb7 ∷ 0 ∷ 0 ∷ 0 ∷ 5 ∷ 0 ∷ 0 ∷ 0 ∷ 0x95 ∷ 0 ∷ 0 ∷ 0 ∷ 0 ∷ 0 ∷ 0 ∷ 0 ∷ []

abbrev io : Stdio File
io = record {
  standard_input = none;
  fopen = λ path. some (program, false);
  fread = λ n s. (take n s.0, (drop n s.0, s.1 || ltb (length s.0) n));
  ferror = λ s. false;
  feof = λ s. s.1;
}

io-IsStream : IsStream io (λ s. s.0)
io-IsStream = record {
  chunk = λ n s. refl;
  left = λ n s. refl;
  ends = λ n s. refl;
  no_error = λ s. refl;
}

abbrev returns_zero : ExtFunc
returns_zero = record { address = 4096; apply = λ a b c d e memory. (0, memory) }

abbrev process : Process File
process = record {
  io = io;
  io_after = λ path. io;
  rand_r = λ seed. (seed, seed + 1);
  register_map = register_map;
  code_allocated = true;
  mem_allocated = true;
  vm_allocated = true;
  funcs_allocated = true;
  names_allocated = true;
  copy_allocated = true;
  insts_allocated = true;
  mapped = true;
  protected = true;
  mem_address = 2 ^ 20;
  stack = 2 ^ 30;
  is_accessible = λ _ _. true;
  garbage = λ _. 0;
  memory = λ _. 0;
  gather_bytes_address = 8192;
  memfrob = returns_zero;
  trash_registers = returns_zero;
  sqrti = returns_zero;
  strcmp = returns_zero;
  stderr_address = 2 ^ 46;
  fprintf_address = 2 ^ 46 + 4096;
  format_address = 2 ^ 46 + 8192;
  call = λ code mem_base mem_len memory. 0;
}

abbrev settings : Settings
settings = record { mem_filename = some (109 ∷ []); jit = false; register_map = register_map }

chosen :
    parse_options process.rand_r
      (opt_mem (109 ∷ []) ∷ [])
      (record { mem_filename = none; jit = false; register_map = register_map })
    ≡ go_on settings
unfolding parse_options
chosen = refl

abbrev code_path : Name
code_path = 112 ∷ []

abbrev mem_path : Name
mem_path = 109 ∷ []

code_read : readfile io true code_path max_file ≡ contents program
unfolding str_eq
code_read = readfile-content io (λ s. s.0) io-IsStream code_path max_file (program, false) refl refl

mem_read : readfile io true mem_path max_file ≡ contents program
unfolding str_eq
mem_read = readfile-content io (λ s. s.0) io-IsStream mem_path max_file (program, false) refl refl

program-IsFile : IsFile program
program-IsFile = record { bytes = ground arith; small = omega arith }

program-prints : main process 3 (opt_mem mem_path ∷ []) (code_path ∷ []) ≡ prints 5
unfolding main with_settings parse_options with_code with_mem with_vm run_vm create
    register_functions load_step is_elf load exec validate decode register step alu64
program-prints =
    ap (with_code process 3 settings code_path (some mem_path)) code_read
    ∙ ap (with_mem process 3 settings program) mem_read

-- The ELF magic is an RSH64 with an offset, and `validate` lets it pass.
abbrev magic_code : List Inst
magic_code =
    record { opcode = 0x7f; dst = 5; src = 4; offset = 0x464c; imm = 0 }
    ∷ record { opcode = 0x95; dst = 0; src = 0; offset = 0; imm = 0 }
    ∷ []

magic-valid : (vm : Vm) → validate vm magic_code ≡ valid tt
unfolding validate decode
magic-valid vm = refl

magic-is_elf : is_elf (insts_bytes magic_code) ≡ true
unfolding is_elf insts_bytes inst_bytes
magic-is_elf = refl

-- The 16 bytes are too large for 16.
readfile-content_example : readfile io true code_path 16 ≡ not_read too_large
unfolding str_eq
readfile-content_example =
    readfile-content io (λ s. s.0) io-IsStream code_path 16 (program, false) refl refl

main-Executes_example : Executes process 3 code_path (some mem_path) program 5
main-Executes_example =
    main-Executes process 3 settings program 5 program-IsFile refl (opt_mem mem_path ∷ []) code_path
      chosen code_read program-prints
