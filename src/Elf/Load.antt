-- ===== src/Elf/Load.antt =====
-- `ubpf_load_elf` (tools/ubpf/vm/ubpf_loader.c).
use ve_bpf.Base.{ℕ, Bool, not, List, ◌==◌, take, drop}
use ve_bpf.Base.Word.{u32}
use ve_bpf.Vm.State.{Vm}
use ve_bpf.Vm.Load.{Loaded, loaded, not_loaded, load}
use ve_bpf.Elf.File.{
  text_not_found, no_memory, load_error, Parsed, parsed, failed, ◌>>=◌, ◌>>◌, fail_if,
}
use ve_bpf.Elf.Sections.{Section, section_at, read_header, read_sections, find_text}
use ve_bpf.Elf.Relocate.{relocate_all}

-- The result of `ubpf_load`.
abbrev pub finish : Loaded → Parsed Vm
finish (loaded vm) = parsed vm
finish (not_loaded e) = failed (load_error e)

-- From the copy of the text section on. `ubpf_load` takes its length as `uint32_t`.
unfoldable pub load_text : Vm → List ℕ → List Section → ℕ → Section → Bool → Parsed Vm
load_text vm elf sections text_shndx text allocated = do
  code ← relocate_all vm elf sections text_shndx sections (take text.size (drop text.start elf))
  finish (load vm (take (u32 text.size) code) allocated)

-- `copy_allocated` and `allocated` say whether `malloc` succeeds here and in `ubpf_load`.
unfoldable pub load_elf : Vm → List ℕ → Bool → Bool → Parsed Vm
load_elf vm elf copy_allocated allocated = do
  header ← read_header elf
  sections ← read_sections elf header header.shnum 0
  text_shndx ← find_text elf sections 0
  fail_if (text_shndx == 0) text_not_found
  text ← section_at sections text_shndx
  fail_if (not copy_allocated) no_memory
  load_text vm elf sections text_shndx text allocated
