-- ===== src/Elf/Relocate.antt =====
-- The relocations of `ubpf_load_elf` (tools/ubpf/vm/ubpf_loader.c): a call's immediate becomes the
-- index of the external function that the symbol names.
use ve_bpf.Base.{
  ℕ, zero, suc, ◌+◌, ◌*◌, ◌/◌, ◌^◌, Bool, not, ◌&&◌, Option, none, some, List, [], ◌∷◌, ltb, leb,
  ◌==◌, if◌then◌else◌, length, drop,
}
use ve_bpf.Base.Word.{u32, u64}
use ve_bpf.Ebpf.Encoding.{to_bytes}
use ve_bpf.Jit.Resolve.{write}
use ve_bpf.Vm.State.{Vm, Name, lookup_registered_function}
use ve_bpf.Elf.File.{
  bad_symbol_table, bad_string_table, bad_symbol_index, bad_symbol_name, bad_relocation_type,
  bad_relocation_offset, function_not_found, name_read, text_write, Parsed, parsed, failed, outside,
  ◌>>=◌, ◌>>◌, fail_if, field,
}
use ve_bpf.Elf.Sections.{Section, section_at, sh_type, sh_info, sh_link}

-- The string at the start of these bytes of the file; `none` if no NUL ends it in the file.
unfoldable pub c_string : List ℕ → Option Name
c_string [] = none
c_string (b ∷ bs) =
    let rest = c_string bs in
    if b == 0 then some [] else elim rest [ none ↦ none | some name ↦ some (b ∷ name) ]

-- The search for the name. Where no NUL ends it, either the comparisons or the message that it has not been
-- found read behind the file.
unfoldable pub find_function : Vm → Option Name → Parsed (Option ℕ)
find_function vm none = outside name_read
find_function vm (some name) = parsed (lookup_registered_function vm name)

abbrev pub found_or_fail : Option ℕ → Parsed ℕ
found_or_fail none = failed function_not_found
found_or_fail (some imm) = parsed imm

-- The check of `r_offset` and the write of the immediate.
unfoldable pub check_offset : List ℕ → ℕ → Parsed (Unit {0})
check_offset text r_offset = fail_if (ltb (length text) (u64 (r_offset + 8))) bad_relocation_offset

unfoldable pub write_imm : List ℕ → ℕ → ℕ → Parsed (List ℕ)
write_imm text r_offset imm =
    let at = u64 (r_offset + 4) in
    if leb (at + 4) (length text)
    then parsed (write text at (to_bytes 4 imm))
    else outside text_write

-- One relocation, with its entry at `r` in the file.
unfoldable pub relocate : Vm → List ℕ → Section → Section → ℕ → List ℕ → Parsed (List ℕ)
relocate vm elf symtab strtab r text = do
  r_info ← field 8 elf (r + 8)
  fail_if (not (u32 r_info == 2)) (bad_relocation_type (u32 r_info))
  let sym_idx = u32 (r_info / 2 ^ 32)
  fail_if (leb (u32 (symtab.size / 24)) sym_idx) bad_symbol_index
  st_name ← field 4 elf (symtab.start + sym_idx * 24)
  fail_if (leb strtab.size st_name) bad_symbol_name
  r_offset ← field 8 elf r
  check_offset text r_offset
  index ← find_function vm (c_string (drop (strtab.start + st_name) elf))
  imm ← found_or_fail index
  write_imm text r_offset imm

-- The loop over the entries of a relocation section, from `r` with `rounds` left.
unfoldable pub relocate_from : Vm → List ℕ → Section → Section → ℕ → ℕ → List ℕ → Parsed (List ℕ)
relocate_from vm elf symtab strtab zero r text = parsed text
relocate_from vm elf symtab strtab (suc rounds) r text = do
  text' ← relocate vm elf symtab strtab r text
  relocate_from vm elf symtab strtab rounds (r + 16) text'

-- A relocation section that is for the text section.
unfoldable pub relocate_section : Vm → List ℕ → List Section → Section → List ℕ → Parsed (List ℕ)
relocate_section vm elf sections rel text = do
  symtab_index ← sh_link elf rel.shdr
  fail_if (leb (length sections) symtab_index) bad_symbol_table
  symtab ← section_at sections symtab_index
  strtab_index ← sh_link elf symtab.shdr
  fail_if (leb (length sections) strtab_index) bad_string_table
  strtab ← section_at sections strtab_index
  relocate_from vm elf symtab strtab (rel.size / 16) rel.start text

-- `SHT_REL`.
unfoldable pub is_relocation : List ℕ → ℕ → Section → Parsed Bool
is_relocation elf text_shndx section = do
  type ← sh_type elf section.shdr
  info ← sh_info elf section.shdr
  parsed ((type == 9) && (info == text_shndx))

-- The loop over the sections; those left are the last argument.
unfoldable pub relocate_all :
    Vm → List ℕ → List Section → ℕ → List Section → List ℕ → Parsed (List ℕ)
relocate_all vm elf sections text_shndx [] text = parsed text
relocate_all vm elf sections text_shndx (rel ∷ rest) text = do
  chosen ← is_relocation elf text_shndx rel
  text' ← (if chosen then relocate_section vm elf sections rel text else parsed text)
  relocate_all vm elf sections text_shndx rest text'
