-- ===== src/Elf/Whole.antt =====
-- About `ubpf_load_elf` (tools/ubpf/vm/ubpf_loader.c) as a whole: its reads, and the machine that it makes.
use mathlib.Core.Path.{subst}
use ve_bpf.Base.{ℕ, ◌≡◌, ◌≢◌, refl, ap, Bool, List, arith, take, drop, none, some}
use ve_bpf.Base.Word.{u32}
use ve_bpf.Ebpf.{Inst}
use ve_bpf.Ebpf.Encoding.RoundTrip.{AreBytes, AreInsts, insts_of_bytes-AreInsts}
use ve_bpf.Vm.Validate.Sound.{IsValidated}
use ve_bpf.Vm.Load.Laws.{with_code, load-loaded}
use ve_bpf.Vm.State.{Vm}
use ve_bpf.Vm.Load.{Loaded, loaded, not_loaded, load}
use ve_bpf.Elf.File.{read, Parsed, parsed, failed, outside}
use ve_bpf.Elf.Sections.{Section}
use ve_bpf.Elf.Load.{finish, load_text, load_elf}
use ve_bpf.Elf.Ensures.{Ensures, Ensures-bind, Ensures-parsed, AreBytes-take, AreBytes-drop, IsFile}
use ve_bpf.Elf.Reads.{
  AreInside, check, read_header-Ensures, read_sections-Ensures, find_text-Ensures,
  section_at-Ensures,
}
use ve_bpf.Elf.Text.{relocate_all-Ensures}
use ve_bpf.Vm.Exec.{Context, State}
use ve_bpf.Vm.Exec.Reach.{Reaches}
use ve_bpf.Vm.Exec.Inside.{EndsInExit, Fetches, Reaches-Fetches}

-- The machine `vm'` is `vm` with validated code, where `vm` had none.
pub record IsLoaded (vm vm' : Vm) : Type 0 where
  pub code : List Inst
  pub empty : vm.insts ≡ none
  pub fields : AreInsts code
  pub validated : IsValidated vm' code
  pub made : vm' ≡ with_code vm code

module _ (vm : Vm) (elf : List ℕ) (file : IsFile elf) where
  -- What a machine is after its code has been loaded.
  finish-Ensures :
      (code : List ℕ) (allocated : Bool) (l : Loaded)
      → AreBytes code
      → load vm code allocated ≡ l
      → Ensures (IsLoaded vm) (finish l)
  finish-Ensures code allocated (not_loaded e) t h = record { holds = tt }
  finish-Ensures code allocated (loaded vm') t h =
      let (insts, empty, same, validated, made) = load-loaded vm vm' code allocated h in
      Ensures-parsed (record {
        code = insts;
        empty = empty;
        fields = insts_of_bytes-AreInsts code insts t same;
        validated = validated;
        made = made;
      })

  load_text-Ensures :
      (sections : List Section) (text_shndx : ℕ) (text : Section) (allocated : Bool)
      → AreInside elf sections
      → Ensures (IsLoaded vm) (load_text vm elf sections text_shndx text allocated)
  unfolding load_text
  load_text-Ensures sections text_shndx text allocated inside =
      let bytes =
        AreBytes-take text.size (drop text.start elf) (AreBytes-drop text.start elf file.bytes) in
      Ensures-bind
        (relocate_all-Ensures vm elf file sections text_shndx sections
          (take text.size (drop text.start elf)) inside inside bytes)
        (λ code p.
          let copied = AreBytes-take (u32 text.size) code p.bytes in
          finish-Ensures (take (u32 text.size) code) allocated _ copied refl)

  load_elf-Ensures :
      (copy_allocated allocated : Bool)
      → Ensures (IsLoaded vm) (load_elf vm elf copy_allocated allocated)
  unfolding load_elf
  load_elf-Ensures copy_allocated allocated =
      Ensures-bind (read_header-Ensures elf file) (λ header _.
        Ensures-bind (read_sections-Ensures elf file header header.shnum 0) (λ sections inside.
          Ensures-bind (find_text-Ensures elf file sections 0 inside) (λ text_shndx found.
            check _ _ _ (λ some_text.
              Ensures-bind (section_at-Ensures elf sections text_shndx inside (ground arith))
                (λ text _.
                  check _ _ _
                    (λ _. load_text-Ensures sections text_shndx text allocated inside))))))

ends-read : {vm : Vm} (m : Parsed Vm) → Ensures (IsLoaded vm) m → m ≢ outside read
ends-read (parsed a) h e = cc
ends-read (failed x) h e = cc
ends-read (outside w) h e = h.holds (ground arith)

ends-parsed :
    {vm : Vm} (m : Parsed Vm) (vm' : Vm)
    → Ensures (IsLoaded vm) m
    → m ≡ parsed vm'
    → IsLoaded vm vm'
ends-parsed {vm} (parsed a) vm' h e = let same : a ≡ vm' = cc in subst (IsLoaded vm) same h.holds
ends-parsed (failed x) vm' h e = cc
ends-parsed (outside w) vm' h e = cc

module _ (vm : Vm) (elf : List ℕ) (copy_allocated allocated : Bool) (file : IsFile elf) where
  -- Whatever the bytes of the file, `ubpf_load_elf` reads headers, relocations and symbols only inside
  -- it.
  pub load_elf-reads : load_elf vm elf copy_allocated allocated ≢ outside read
  load_elf-reads = ends-read _ (load_elf-Ensures vm elf file copy_allocated allocated)

  -- When `ubpf_load_elf` succeeds, the machine had no code, and the code that it now has passes
  -- `validate` and has fields of their C widths; nothing else of the machine has changed.
  pub load_elf-IsLoaded :
      (vm' : Vm) → load_elf vm elf copy_allocated allocated ≡ parsed vm' → IsLoaded vm vm'
  load_elf-IsLoaded vm' = ends-parsed _ vm' (load_elf-Ensures vm elf file copy_allocated allocated)

-- Let `ubpf_load_elf` have stored the code of the machine from a file, whatever its bytes, and
-- let the last instruction of the code be an exit. From a state with counter 0 on, after any
-- number of rounds, the counter is on an instruction of the code, whose opcode is not 0, so it
-- is not the second half of an `lddw`, and r10 has kept its value.
pub load_elf-Fetches :
    (vm : Vm) (elf : List ℕ) (copy_allocated allocated : Bool) (c : Context)
    → IsFile elf
    → load_elf vm elf copy_allocated allocated ≡ parsed c.vm
    → c.vm.insts ≡ some c.code
    → EndsInExit c.code
    → {s t : State} → s.pc ≡ 0
    → Reaches c s t
    → Fetches c.code (s.reg 10) t
load_elf-Fetches vm elf copy_allocated allocated c file h at ends e r =
    let l = load_elf-IsLoaded vm elf copy_allocated allocated file c.vm h in
    let same : l.code ≡ c.code = let stored = ap (λ (v : Vm). v.insts) l.made in cc in
    Reaches-Fetches c (subst (IsValidated c.vm) same l.validated) (subst AreInsts same l.fields)
      ends e r
