-- ===== src/Elf/File.antt =====
-- The buffer that holds the file, and `bounds_check` (tools/ubpf/vm/ubpf_loader.c). A pointer into the
-- buffer is the offset from its start.
use ve_bpf.Base.{ℕ, ◌+◌, Bool, true, false, ◌||◌, List, ltb, leb, if◌then◌else◌, length, take, drop}
use ve_bpf.Base.Word.{u64}
use ve_bpf.Ebpf.Encoding.{of_bytes}
use ve_bpf.Vm.Load.{LoadError}

-- The messages of `ubpf_load_elf`, and those of `ubpf_load`.
pub data ElfError : Type 0 where
  no_header wrong_magic wrong_class wrong_byte_order wrong_version wrong_abi wrong_type : ElfError
  wrong_machine : ℕ → ElfError
  too_many_sections bad_section_header bad_section text_not_found no_memory : ElfError
  bad_symbol_table bad_string_table bad_symbol_index bad_symbol_name : ElfError
  bad_relocation_type : ℕ → ElfError
  bad_relocation_offset function_not_found : ElfError
  load_error : LoadError → ElfError

-- An access outside the buffer that it is meant for: undefined behaviour.
pub data Access : Type 0 where
  read name_read text_write : Access

pub data Parsed {ℓ} (A : Type ℓ) : Type ℓ where
  parsed : A → Parsed A
  failed : ElfError → Parsed A
  outside : Access → Parsed A

infixl 5 ◌>>=◌ ◌>>◌
unfoldable pub ◌>>=◌ {ℓ κ} : {A : Type ℓ} {B : Type κ} → Parsed A → (A → Parsed B) → Parsed B
parsed a >>= f = f a
failed e >>= f = failed e
outside w >>= f = outside w

abbrev pub ◌>>◌ {ℓ} : {B : Type ℓ} → Parsed (Unit {0}) → Parsed B → Parsed B
m >> k = m >>= λ _. k

-- `if (bad) { *errmsg = …; goto error; }`.
unfoldable pub fail_if : Bool → ElfError → Parsed (Unit {0})
fail_if true e = failed e
fail_if false e = parsed tt

-- The little-endian field of `n` bytes at an offset.
unfoldable pub field : ℕ → List ℕ → ℕ → Parsed ℕ
field n elf at =
    if leb (at + n) (length elf) then parsed (of_bytes (take n (drop at elf))) else outside read

-- `bounds_check`; the null pointer is the error `e`, which every caller reports.
unfoldable pub bounds_check : List ℕ → ℕ → ℕ → ElfError → Parsed ℕ
bounds_check elf offset size e =
    if ltb (length elf) (u64 (offset + size)) || ltb (u64 (offset + size)) offset
    then failed e
    else parsed offset
