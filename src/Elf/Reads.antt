-- ===== src/Elf/Reads.antt =====
-- About the reads of `ubpf_load_elf` (tools/ubpf/vm/ubpf_loader.c).
use ve_bpf.Base.{
  ℕ, zero, suc, ◌+◌, ◌*◌, ◌^◌, ◌≤◌, ◌<◌, ◌≡◌, ◌⊎◌, inl, inr, refl, Bool, false, List, [], ◌∷◌,
  arith, length, ltb,
}
use ve_bpf.Base.Word.{u64}
use ve_bpf.Elf.File.{
  ElfError, no_header, bad_section_header, bad_section, Parsed, ◌>>=◌, ◌>>◌, fail_if, field,
}
use ve_bpf.Elf.Sections.{
  Section, Header, max_sections, section_at, read_header, read_header_at, read_section,
  read_sections, is_text, find_text, sh_type, sh_flags, sh_offset, sh_size,
}
use ve_bpf.Elf.Ensures.{
  Ensures, Ensures-bind, Ensures-parsed, Ensures-fail_if, Ensures-if, Ensures-weaken, IsFile,
  Ensures-field, Ensures-bounds_check,
}

-- The header and the contents of a section lie in the file.
pub record IsInside (elf : List ℕ) (s : Section) : Type 0 where
  pub header : s.shdr + 64 ≤ length elf
  pub contents : s.start + s.size ≤ length elf

abbrev pub AreInside : List ℕ → List Section → Type 0
AreInside elf [] = Unit
AreInside elf (s ∷ ss) = IsInside elf s × AreInside elf ss

-- The fields have their widths.
pub record IsHeader (h : Header) : Type 0 where
  pub shoff_fits : h.shoff < 2 ^ 64
  pub shnum_fits : h.shnum ≤ 32

IsHeader-fits :
    (shoff shentsize shnum : ℕ)
    → shoff < 256 ^ 8
    → ltb max_sections shnum ≡ false
    → IsHeader (record { shoff = shoff; shentsize = shentsize; shnum = shnum })
IsHeader-fits shoff shentsize shnum h few = record {
  shoff_fits = omega arith;
  shnum_fits = ground arith;
}

module _ {B : Type 0} {Q : B → Type 0} where
  pub check :
      (b : Bool) (e : ElfError) (k : Parsed B)
      → (b ≡ false → Ensures Q k)
      → Ensures Q (fail_if b e >> k)
  check b e k h = Ensures-bind (Ensures-fail_if b e) (λ _. h)

  pub get :
      (elf : List ℕ) (n at : ℕ) (f : ℕ → Parsed B)
      → IsFile elf
      → at + n ≤ length elf
      → ((x : ℕ) → x < 256 ^ n → Ensures Q (f x))
      → Ensures Q (field n elf at >>= f)
  get elf n at f file h k = Ensures-bind (Ensures-field elf file n at h) k

module _ (elf : List ℕ) (file : IsFile elf) where
  rest_of_IsHeader :
      (start : ℕ) → start + 64 ≤ length elf → Ensures IsHeader (read_header_at elf start)
  unfolding read_header_at
  rest_of_IsHeader start h = get elf _ _ _ file (omega arith) (λ _ _. check _ _ _ (λ _.
      get elf _ _ _ file (omega arith) (λ _ _. check _ _ _ (λ _.
        get elf _ _ _ file (omega arith) (λ _ _. check _ _ _ (λ _.
          get elf _ _ _ file (omega arith) (λ _ _. check _ _ _ (λ _.
            get elf _ _ _ file (omega arith) (λ _ _. check _ _ _ (λ _.
              get elf _ _ _ file (omega arith) (λ _ _. check _ _ _ (λ _.
                get elf _ _ _ file (omega arith) (λ _ _. check _ _ _ (λ _.
                  get elf _ _ _ file (omega arith) (λ shnum _. check _ _ _ (λ few.
                    get elf _ _ _ file (omega arith) (λ shoff w.
                      get elf _ _ _ file (omega arith) (λ shentsize _.
                        Ensures-parsed (IsHeader-fits shoff shentsize shnum w few)))))))))))))))))))

  pub read_header-Ensures : Ensures IsHeader (read_header elf)
  unfolding read_header
  read_header-Ensures =
      Ensures-bind (Ensures-bounds_check elf file 0 64 no_header (omega arith) (omega arith))
        (λ start h. rest_of_IsHeader start (omega arith))

  read_section-Ensures : (h : Header) (i : ℕ) → Ensures (IsInside elf) (read_section elf h i)
  unfolding read_section sh_offset sh_size
  read_section-Ensures h i =
      Ensures-bind
        (Ensures-bounds_check elf file (u64 (h.shoff + i * h.shentsize)) 64 bad_section_header
          (omega arith) (omega arith))
        (λ shdr p. get elf _ _ _ file (omega arith) (λ offset u.
          get elf _ _ _ file (omega arith) (λ size v.
            Ensures-bind
              (Ensures-bounds_check elf file offset size bad_section (omega arith) (omega arith))
              (λ start q.
                Ensures-parsed (record { header = omega arith; contents = omega arith })))))

  pub read_sections-Ensures :
      (h : Header) (rounds i : ℕ) → Ensures (AreInside elf) (read_sections elf h rounds i)
  unfolding read_sections
  read_sections-Ensures h zero i = Ensures-parsed tt
  read_sections-Ensures h (suc rounds) i =
      Ensures-bind (read_section-Ensures h i) (λ s p.
        Ensures-bind (read_sections-Ensures h rounds (i + 1)) (λ ss q. Ensures-parsed (p, q)))

  is_text-Ensures : (s : Section) → IsInside elf s → Ensures (λ _. Unit) (is_text elf s)
  unfolding is_text sh_type sh_flags
  is_text-Ensures s p =
      let h = p.header in
      get elf _ _ _ file (omega arith)
        (λ _ _. get elf _ _ _ file (omega arith) (λ _ _. Ensures-parsed tt))

  pub find_text-Ensures :
      (ss : List Section) (i : ℕ)
      → AreInside elf ss
      → Ensures (λ r. (r ≡ 0) ⊎ (r < i + length ss)) (find_text elf ss i)
  unfolding find_text
  find_text-Ensures [] i p = Ensures-parsed (inl refl)
  find_text-Ensures (s ∷ ss) i (p, q) = Ensures-bind (is_text-Ensures s p) (λ found _.
      Ensures-if found (λ _. Ensures-parsed (inr (omega arith)))
        (λ _. Ensures-weaken (find_text-Ensures ss (i + 1) q) (λ r h. ground arith)))

pub section_at-Ensures :
    (elf : List ℕ) (ss : List Section) (i : ℕ)
    → AreInside elf ss
    → i < length ss
    → Ensures (IsInside elf) (section_at ss i)
section_at-Ensures elf [] i p h = absurd (omega arith)
section_at-Ensures elf (s ∷ ss) zero p h = Ensures-parsed p.0
section_at-Ensures elf (s ∷ ss) (suc i) p h = section_at-Ensures elf ss i p.1 (omega arith)
