-- ===== src/Elf/Sections.antt =====
-- The headers that `ubpf_load_elf` (tools/ubpf/vm/ubpf_loader.c) reads, and the choice of the text
-- section. Field offsets are those of <elf.h> for 64-bit files.
use ve_bpf.Base.{
  ℕ, zero, suc, ◌+◌, ◌*◌, Bool, not, ◌&&◌, none, some, List, [], ◌∷◌, ltb, ◌==◌, if◌then◌else◌,
  get_elem?,
}
use ve_bpf.Base.Word.{u64}
use ve_bpf.Elf.File.{
  no_header, wrong_magic, wrong_class, wrong_byte_order, wrong_version, wrong_abi, wrong_type,
  wrong_machine, too_many_sections, bad_section_header, bad_section, read, Parsed, parsed, outside,
  ◌>>=◌, ◌>>◌, fail_if, field, bounds_check,
}

-- `MAX_SECTIONS` and `EM_BPF`.
abbrev pub max_sections : ℕ
max_sections = 32

abbrev pub em_bpf : ℕ
em_bpf = 247

-- `struct section`.
pub record Section : Type 0 where
  pub shdr : ℕ
  pub start : ℕ  -- `data`
  pub size : ℕ

-- What is used of the ELF header after the checks.
pub record Header : Type 0 where
  pub shoff : ℕ
  pub shentsize : ℕ
  pub shnum : ℕ

-- The checks of the ELF header at `start`, in order.
unfoldable pub read_header_at : List ℕ → ℕ → Parsed Header
read_header_at elf start = do
  magic ← field 4 elf start
  fail_if (not (magic == 0x464c457f)) wrong_magic
  class ← field 1 elf (start + 4)
  fail_if (not (class == 2)) wrong_class
  order ← field 1 elf (start + 5)
  fail_if (not (order == 1)) wrong_byte_order
  version ← field 1 elf (start + 6)
  fail_if (not (version == 1)) wrong_version
  abi ← field 1 elf (start + 7)
  fail_if (not (abi == 0)) wrong_abi
  type ← field 2 elf (start + 16)
  fail_if (not (type == 1)) wrong_type
  machine ← field 2 elf (start + 18)
  fail_if (not (machine == 0) && not (machine == em_bpf)) (wrong_machine machine)
  shnum ← field 2 elf (start + 60)
  fail_if (ltb max_sections shnum) too_many_sections
  shoff ← field 8 elf (start + 40)
  shentsize ← field 2 elf (start + 58)
  parsed (record { shoff = shoff; shentsize = shentsize; shnum = shnum })

unfoldable pub read_header : List ℕ → Parsed Header
read_header elf = bounds_check elf 0 64 no_header >>= read_header_at elf

-- The fields of the section header at `shdr`.
unfoldable pub sh_type : List ℕ → ℕ → Parsed ℕ
sh_type elf shdr = field 4 elf (shdr + 4)

unfoldable pub sh_flags : List ℕ → ℕ → Parsed ℕ
sh_flags elf shdr = field 8 elf (shdr + 8)

unfoldable pub sh_offset : List ℕ → ℕ → Parsed ℕ
sh_offset elf shdr = field 8 elf (shdr + 24)

unfoldable pub sh_size : List ℕ → ℕ → Parsed ℕ
sh_size elf shdr = field 8 elf (shdr + 32)

unfoldable pub sh_link : List ℕ → ℕ → Parsed ℕ
sh_link elf shdr = field 4 elf (shdr + 40)

unfoldable pub sh_info : List ℕ → ℕ → Parsed ℕ
sh_info elf shdr = field 4 elf (shdr + 44)

-- One round of the loop over the section headers.
unfoldable pub read_section : List ℕ → Header → ℕ → Parsed Section
read_section elf header i = do
  shdr ← bounds_check elf (u64 (header.shoff + i * header.shentsize)) 64 bad_section_header
  offset ← sh_offset elf shdr
  size ← sh_size elf shdr
  start ← bounds_check elf offset size bad_section
  parsed (record { shdr = shdr; start = start; size = size })

-- The loop, from index `i` with `rounds` left.
unfoldable pub read_sections : List ℕ → Header → ℕ → ℕ → Parsed (List Section)
read_sections elf header zero i = parsed []
read_sections elf header (suc rounds) i = do
  section ← read_section elf header i
  rest ← read_sections elf header rounds (i + 1)
  parsed (section ∷ rest)

-- `sections[i]`; the array is filled up to `e_shnum`.
abbrev pub section_at : List Section → ℕ → Parsed Section
section_at sections i = elim (get_elem? sections i) [
  | none ↦ outside read
  | some section ↦ parsed section
]

-- `SHT_PROGBITS`, and `SHF_ALLOC|SHF_EXECINSTR`.
unfoldable pub is_text : List ℕ → Section → Parsed Bool
is_text elf section = do
  type ← sh_type elf section.shdr
  flags ← sh_flags elf section.shdr
  parsed ((type == 1) && (flags == 6))

-- The index of the first text section from `i` on, 0 if there is none.
unfoldable pub find_text : List ℕ → List Section → ℕ → Parsed ℕ
find_text elf [] i = parsed 0
find_text elf (section ∷ sections) i = do
  found ← is_text elf section
  let later = find_text elf sections (i + 1)
  if found then parsed i else later
