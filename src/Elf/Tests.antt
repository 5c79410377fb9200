-- ===== src/Elf/Tests.antt =====
-- A file of five sections with one relocation, through tools/ubpf/vm/ubpf_loader.c.

use ve_bpf.Base.{
  ℕ, ◌-◌, ◌*◌, ◌+◌, ◌^◌, ◌<◌, ◌≤◌, ◌≡◌, ◌≢◌, ◌↔◌, refl, true, none, some, List, [], ◌∷◌, ◌++◌,
  arith, ◌==◌, if◌then◌else◌, set,
}
use ve_bpf.Base.Word.{u64}
use ve_bpf.Ebpf.{Inst}
use ve_bpf.Ebpf.Encoding.{of_bytes, to_bytes, insts_bytes}
use ve_bpf.Ebpf.Opcode.{decode}
use ve_bpf.Jit.Resolve.{write}
use ve_bpf.Vm.State
use ve_bpf.Vm.State.{Vm, ExtFunc, lookup_registered_function, max_ext_funcs}
use ve_bpf.Vm.Load
use ve_bpf.Vm.Exec.{Context, State, Outcome, next, step}
use ve_bpf.Vm.Exec.Inside.{EndsInExit, Fetches}
use ve_bpf.Vm.Exec.Reach.{Reaches, here, round}
use ve_bpf.Elf.File.{read, text_write, parsed, outside, ◌>>=◌, fail_if, field, bounds_check}
use ve_bpf.Elf.Sections.{
  read_header, read_header_at, sh_type, sh_flags, sh_offset, sh_size, sh_link, sh_info,
  read_section, read_sections, is_text, find_text,
}
use ve_bpf.Elf.Relocate.{
  c_string, find_function, check_offset, write_imm, relocate, relocate_from, relocate_section,
  is_relocation, relocate_all,
}
use ve_bpf.Elf.Load.{load_text, load_elf}
use ve_bpf.Elf.Ensures.{IsFile}
use ve_bpf.Elf.Whole.{IsLoaded, load_elf-reads, load_elf-IsLoaded, load_elf-Fetches}
use ve_bpf.Elf.Calls.{write_imm-outside, with_imm, write_imm-insts_bytes}

abbrev sum_of_two : ExtFunc
sum_of_two = record { address = 0x1000; apply = λ a1 a2 a3 a4 a5 memory. (u64 (a1 + a2), memory) }

-- The function `s` has index 7.
abbrev vm : Vm
vm = record {
  insts = none;
  num_insts = 0;
  jitted = none;
  jitted_size = 0;
  ext_funcs = λ i. if i == 7 then some sum_of_two else none;
  ext_func_names = λ i. if i == 7 then some (0x73 ∷ []) else none;
  bounds_check_enabled = true;
}

abbrev file_header : List ℕ
file_header =
    127 ∷ 69 ∷ 76 ∷ 70 ∷ 2 ∷ 1 ∷ 1 ∷ 0 ∷ 0 ∷ 0 ∷ 0 ∷ 0 ∷ 0 ∷ 0 ∷ 0 ∷ 0 ∷ 1 ∷ 0 ∷ 247 ∷ 0 ∷ 1 ∷ 0 ∷ 0
    ∷ 0 ∷ 0 ∷ 0 ∷ 0 ∷ 0 ∷ 0 ∷ 0 ∷ 0 ∷ 0 ∷ 0 ∷ 0 ∷ 0 ∷ 0 ∷ 0 ∷ 0 ∷ 0 ∷ 0 ∷ 64 ∷ 0 ∷ 0 ∷ 0 ∷ 0 ∷ 0 ∷ 0
    ∷ 0 ∷ 0 ∷ 0 ∷ 0 ∷ 0 ∷ 64 ∷ 0 ∷ 0 ∷ 0 ∷ 0 ∷ 0 ∷ 64 ∷ 0 ∷ 5 ∷ 0 ∷ 0 ∷ 0 ∷ []

-- Null, text, relocations, symbols and strings.
abbrev section_headers : List ℕ
section_headers =
    0 ∷ 0 ∷ 0 ∷ 0 ∷ 0 ∷ 0 ∷ 0 ∷ 0 ∷ 0 ∷ 0 ∷ 0 ∷ 0 ∷ 0 ∷ 0 ∷ 0 ∷ 0 ∷ 0 ∷ 0 ∷ 0 ∷ 0 ∷ 0 ∷ 0 ∷ 0 ∷ 0
    ∷ 0 ∷ 0 ∷ 0 ∷ 0 ∷ 0 ∷ 0 ∷ 0 ∷ 0 ∷ 0 ∷ 0 ∷ 0 ∷ 0 ∷ 0 ∷ 0 ∷ 0 ∷ 0 ∷ 0 ∷ 0 ∷ 0 ∷ 0 ∷ 0 ∷ 0 ∷ 0 ∷ 0
    ∷ 8 ∷ 0 ∷ 0 ∷ 0 ∷ 0 ∷ 0 ∷ 0 ∷ 0 ∷ 0 ∷ 0 ∷ 0 ∷ 0 ∷ 0 ∷ 0 ∷ 0 ∷ 0 ∷ 0 ∷ 0 ∷ 0 ∷ 0 ∷ 1 ∷ 0 ∷ 0 ∷ 0
    ∷ 6 ∷ 0 ∷ 0 ∷ 0 ∷ 0 ∷ 0 ∷ 0 ∷ 0 ∷ 0 ∷ 0 ∷ 0 ∷ 0 ∷ 0 ∷ 0 ∷ 0 ∷ 0 ∷ 128 ∷ 1 ∷ 0 ∷ 0 ∷ 0 ∷ 0 ∷ 0
    ∷ 0 ∷ 16 ∷ 0 ∷ 0 ∷ 0 ∷ 0 ∷ 0 ∷ 0 ∷ 0 ∷ 0 ∷ 0 ∷ 0 ∷ 0 ∷ 0 ∷ 0 ∷ 0 ∷ 0 ∷ 8 ∷ 0 ∷ 0 ∷ 0 ∷ 0 ∷ 0 ∷ 0
    ∷ 0 ∷ 0 ∷ 0 ∷ 0 ∷ 0 ∷ 0 ∷ 0 ∷ 0 ∷ 0 ∷ 0 ∷ 0 ∷ 0 ∷ 0 ∷ 9 ∷ 0 ∷ 0 ∷ 0 ∷ 0 ∷ 0 ∷ 0 ∷ 0 ∷ 0 ∷ 0 ∷ 0
    ∷ 0 ∷ 0 ∷ 0 ∷ 0 ∷ 0 ∷ 0 ∷ 0 ∷ 0 ∷ 0 ∷ 144 ∷ 1 ∷ 0 ∷ 0 ∷ 0 ∷ 0 ∷ 0 ∷ 0 ∷ 16 ∷ 0 ∷ 0 ∷ 0 ∷ 0 ∷ 0
    ∷ 0 ∷ 0 ∷ 3 ∷ 0 ∷ 0 ∷ 0 ∷ 1 ∷ 0 ∷ 0 ∷ 0 ∷ 8 ∷ 0 ∷ 0 ∷ 0 ∷ 0 ∷ 0 ∷ 0 ∷ 0 ∷ 0 ∷ 0 ∷ 0 ∷ 0 ∷ 0 ∷ 0
    ∷ 0 ∷ 0 ∷ 0 ∷ 0 ∷ 0 ∷ 0 ∷ 2 ∷ 0 ∷ 0 ∷ 0 ∷ 0 ∷ 0 ∷ 0 ∷ 0 ∷ 0 ∷ 0 ∷ 0 ∷ 0 ∷ 0 ∷ 0 ∷ 0 ∷ 0 ∷ 0 ∷ 0
    ∷ 0 ∷ 0 ∷ 160 ∷ 1 ∷ 0 ∷ 0 ∷ 0 ∷ 0 ∷ 0 ∷ 0 ∷ 24 ∷ 0 ∷ 0 ∷ 0 ∷ 0 ∷ 0 ∷ 0 ∷ 0 ∷ 4 ∷ 0 ∷ 0 ∷ 0 ∷ 0
    ∷ 0 ∷ 0 ∷ 0 ∷ 8 ∷ 0 ∷ 0 ∷ 0 ∷ 0 ∷ 0 ∷ 0 ∷ 0 ∷ 0 ∷ 0 ∷ 0 ∷ 0 ∷ 0 ∷ 0 ∷ 0 ∷ 0 ∷ 0 ∷ 0 ∷ 0 ∷ 0 ∷ 3
    ∷ 0 ∷ 0 ∷ 0 ∷ 0 ∷ 0 ∷ 0 ∷ 0 ∷ 0 ∷ 0 ∷ 0 ∷ 0 ∷ 0 ∷ 0 ∷ 0 ∷ 0 ∷ 0 ∷ 0 ∷ 0 ∷ 0 ∷ 184 ∷ 1 ∷ 0 ∷ 0
    ∷ 0 ∷ 0 ∷ 0 ∷ 0 ∷ 3 ∷ 0 ∷ 0 ∷ 0 ∷ 0 ∷ 0 ∷ 0 ∷ 0 ∷ 0 ∷ 0 ∷ 0 ∷ 0 ∷ 0 ∷ 0 ∷ 0 ∷ 0 ∷ 8 ∷ 0 ∷ 0 ∷ 0
    ∷ 0 ∷ 0 ∷ 0 ∷ 0 ∷ 0 ∷ 0 ∷ 0 ∷ 0 ∷ 0 ∷ 0 ∷ 0 ∷ 0 ∷ []

-- call -1; exit.
abbrev text : List ℕ
text = 133 ∷ 16 ∷ 0 ∷ 0 ∷ 255 ∷ 255 ∷ 255 ∷ 255 ∷ 149 ∷ 0 ∷ 0 ∷ 0 ∷ 0 ∷ 0 ∷ 0 ∷ 0 ∷ []

-- The relocation, the symbol and the strings.
abbrev tables : List ℕ
tables =
    0 ∷ 0 ∷ 0 ∷ 0 ∷ 0 ∷ 0 ∷ 0 ∷ 0 ∷ 2 ∷ 0 ∷ 0 ∷ 0 ∷ 0 ∷ 0 ∷ 0 ∷ 0 ∷ 1 ∷ 0 ∷ 0 ∷ 0 ∷ 0 ∷ 0 ∷ 0 ∷ 0
    ∷ 0 ∷ 0 ∷ 0 ∷ 0 ∷ 0 ∷ 0 ∷ 0 ∷ 0 ∷ 0 ∷ 0 ∷ 0 ∷ 0 ∷ 0 ∷ 0 ∷ 0 ∷ 0 ∷ 0 ∷ 115 ∷ 0 ∷ []

abbrev elf : List ℕ
elf = file_header ++ (section_headers ++ (text ++ tables))

elf-IsFile : IsFile elf
elf-IsFile = record { bytes = omega arith; small = omega arith }

-- call 7; exit.
abbrev linked : List Inst
linked =
    record { opcode = 0x85; dst = 0; src = 1; offset = 0; imm = 7 }
    ∷ record { opcode = 0x95; dst = 0; src = 0; offset = 0; imm = 0 }
    ∷ []

abbrev linked_vm : Vm
linked_vm = record vm { insts = some linked; num_insts = 2 }

elf-loads : load_elf vm elf true true ≡ parsed linked_vm
unfolding load_elf ◌>>=◌ fail_if field bounds_check read_header read_header_at sh_type sh_flags
    sh_offset sh_size sh_link sh_info read_section read_sections is_text find_text c_string
    find_function check_offset write_imm relocate relocate_from relocate_section is_relocation
    relocate_all load_text of_bytes to_bytes write Load.load decode lookup_registered_function
    State.lookup_from State.str_eq
elf-loads = refl

abbrev context : Context
context = record {
  vm = linked_vm;
  code = linked;
  mem_base = 0;
  mem_len = 0;
  stack = 4096;
  is_accessible = λ _ _. true;
}

abbrev start : State
start = record { pc = 0; reg = λ r. r; memory = λ _. 0 }

abbrev next_or_start : Outcome → State
next_or_start (next m) = m
next_or_start _ = start

after_call : State
after_call = next_or_start (step context start)

one_round : Reaches context start after_call
unfolding after_call step decode
one_round = round here refl

-- Witnesses.
load_elf-reads_example : load_elf vm elf true true ≢ outside read
load_elf-reads_example = load_elf-reads vm elf true true elf-IsFile

load_elf-IsLoaded_example : IsLoaded vm linked_vm
load_elf-IsLoaded_example = load_elf-IsLoaded vm elf true true elf-IsFile linked_vm elf-loads

linked-EndsInExit : EndsInExit linked
linked-EndsInExit = (record { opcode = 0x95; dst = 0; src = 0; offset = 0; imm = 0 }, refl, refl)

load_elf-Fetches_example : Fetches linked (start.reg 10) after_call
load_elf-Fetches_example =
    load_elf-Fetches vm elf true true context elf-IsFile elf-loads refl linked-EndsInExit refl
      one_round

wrapping_passes : check_offset text (2 ^ 64 - 7) ≡ parsed tt
unfolding check_offset fail_if
wrapping_passes = refl

write_imm-outside_example :
    (write_imm text (2 ^ 64 - 7) 7 ≡ outside text_write)
    ↔ ((2 ^ 64 - 8 ≤ 2 ^ 64 - 7) × (2 ^ 64 - 7 < 2 ^ 64 - 4))
write_imm-outside_example =
    write_imm-outside text (2 ^ 64 - 7) 7 (omega arith) (omega arith) wrapping_passes

write_imm-insts_bytes_example :
    (check_offset (insts_bytes linked) (8 * 1) ≡ parsed tt)
    × (write_imm (insts_bytes linked) (8 * 1) 9
        ≡ parsed (
            insts_bytes (
              set linked 1
                (with_imm (record { opcode = 0x95; dst = 0; src = 0; offset = 0; imm = 0 }) 9))))
write_imm-insts_bytes_example = write_imm-insts_bytes linked 1 9 _ (omega arith) refl
