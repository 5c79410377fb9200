-- ===== src/Elf/Text.antt =====
-- About the relocations of `ubpf_load_elf` (tools/ubpf/vm/ubpf_loader.c): where they read and write.

use ve_bpf.Base.{
  ℕ, zero, suc, ◌+◌, ◌*◌, ◌/◌, ◌≤◌, ◌<◌, ◌≡◌, refl, ◌∙◌, List, [], ◌∷◌, arith, length, drop, set,
  Option, none, some, leb,
}
use ve_bpf.Base.Word.{u64}
use ve_bpf.Ebpf.Encoding.{to_bytes}
use ve_bpf.Jit.Resolve.{write}
use ve_bpf.Jit.Layout.Fields.{length-write}
use ve_bpf.Ebpf.Encoding.RoundTrip.{AreBytes, to_bytes-AreBytes}
use ve_bpf.Vm.State.{Name, Vm, Name}
use ve_bpf.Elf.Sections.{Section, sh_type, sh_link, sh_info}
use ve_bpf.Elf.Relocate.{
  find_function, c_string, found_or_fail, check_offset, write_imm, relocate, relocate_from,
  relocate_section, is_relocation, relocate_all,
}
use ve_bpf.Elf.Ensures.{Ensures, Ensures-bind, Ensures-parsed, Ensures-weaken, Ensures-if, IsFile}
use ve_bpf.Elf.Reads.{IsInside, AreInside, check, get, section_at-Ensures}

-- The text after relocations: bytes, as many as before.
pub record IsText (text text' : List ℕ) : Type 0 where
  pub bytes : AreBytes text'
  pub same_length : length text' ≡ length text

AreBytes-set : (xs : List ℕ) (i v : ℕ) → AreBytes xs → v < 256 → AreBytes (set xs i v)
AreBytes-set [] i v h b = tt
AreBytes-set (x ∷ xs) zero v h b = (b, h.1)
AreBytes-set (x ∷ xs) (suc i) v h b = (h.0, AreBytes-set xs i v h.1 b)

AreBytes-write :
    (xs : List ℕ) (at : ℕ) (bs : List ℕ) → AreBytes xs → AreBytes bs → AreBytes (write xs at bs)
unfolding write
AreBytes-write xs at [] h k = h
AreBytes-write xs at (b ∷ bs) h k =
    AreBytes-write (set xs at b) (at + 1) bs (AreBytes-set xs at b h k.0) k.1

find_function-Ensures : (vm : Vm) (o : Option Name) → Ensures (λ _. Unit) (find_function vm o)
unfolding find_function
find_function-Ensures vm none = record { holds = λ e. cc }
find_function-Ensures vm (some name) = Ensures-parsed tt

found_or_fail-Ensures : (o : Option ℕ) → Ensures (λ _. Unit) (found_or_fail o)
found_or_fail-Ensures none = record { holds = tt }
found_or_fail-Ensures (some imm) = Ensures-parsed tt

write_imm-Ensures :
    (text : List ℕ) (r_offset imm : ℕ)
    → AreBytes text
    → Ensures (IsText text) (write_imm text r_offset imm)
unfolding write_imm
write_imm-Ensures text r_offset imm h =
    let at = u64 (r_offset + 4) in
    Ensures-if (leb (at + 4) (length text))
      (λ _. Ensures-parsed (record {
        bytes = AreBytes-write text at (to_bytes 4 imm) h (to_bytes-AreBytes 4 imm);
        same_length = length-write text at (to_bytes 4 imm);
      }))
      (λ _. record { holds = λ e. cc })

IsText-trans : {a b c : List ℕ} → IsText a b → IsText b c → IsText a c
IsText-trans p q = record { bytes = q.bytes; same_length = q.same_length ∙ p.same_length }

module _ (vm : Vm) (elf : List ℕ) (file : IsFile elf) where
  relocate-Ensures :
      (symtab strtab : Section) (r : ℕ) (text : List ℕ)
      → IsInside elf symtab
      → r + 16 ≤ length elf
      → AreBytes text
      → Ensures (IsText text) (relocate vm elf symtab strtab r text)
  unfolding relocate check_offset
  relocate-Ensures symtab strtab r text sym h t =
      let tables = sym.contents in
      get elf _ _ _ file (omega arith) (λ r_info _. check _ _ _ (λ _. check _ _ _ (λ few.
        get elf _ _ _ file (ground arith) (λ st_name _. check _ _ _ (λ _.
          get elf _ _ _ file (omega arith) (λ r_offset _. check _ _ _ (λ _.
            Ensures-bind (find_function-Ensures vm (c_string (drop (strtab.start + st_name) elf)))
              (λ index _.
                Ensures-bind (found_or_fail-Ensures index)
                  (λ imm _. write_imm-Ensures text r_offset imm t)))))))))

  relocate_from-Ensures :
      (symtab strtab : Section) (rounds r : ℕ) (text : List ℕ)
      → IsInside elf symtab
      → r + rounds * 16 ≤ length elf
      → AreBytes text
      → Ensures (IsText text) (relocate_from vm elf symtab strtab rounds r text)
  unfolding relocate_from
  relocate_from-Ensures symtab strtab zero r text sym h t =
      Ensures-parsed (record { bytes = t; same_length = refl })
  relocate_from-Ensures symtab strtab (suc rounds) r text sym h t =
      Ensures-bind (relocate-Ensures symtab strtab r text sym (omega arith) t) (λ text' p.
        Ensures-weaken
          (relocate_from-Ensures symtab strtab rounds (r + 16) text' sym (omega arith) p.bytes)
          (λ text'' q. IsText-trans p q))

  relocate_section-Ensures :
      (sections : List Section) (rel : Section) (text : List ℕ)
      → AreInside elf sections
      → IsInside elf rel
      → AreBytes text
      → Ensures (IsText text) (relocate_section vm elf sections rel text)
  unfolding relocate_section sh_link
  relocate_section-Ensures sections rel text inside p t =
      let header = p.header in
      let contents = p.contents in
      get elf _ _ _ file (omega arith) (λ symtab_index _. check _ _ _ (λ few.
        Ensures-bind (section_at-Ensures elf sections symtab_index inside (ground arith))
          (λ symtab q.
            let header' = q.header in
            get elf _ _ _ file (omega arith) (λ strtab_index _. check _ _ _ (λ few'.
              Ensures-bind (section_at-Ensures elf sections strtab_index inside (ground arith))
                (λ strtab _.
                  relocate_from-Ensures symtab strtab (rel.size / 16) rel.start text q (omega arith)
                    t))))))

  is_relocation-Ensures :
      (text_shndx : ℕ) (s : Section)
      → IsInside elf s
      → Ensures (λ _. Unit) (is_relocation elf text_shndx s)
  unfolding is_relocation sh_type sh_info
  is_relocation-Ensures text_shndx s p =
      let header = p.header in
      get elf _ _ _ file (omega arith)
        (λ _ _. get elf _ _ _ file (omega arith) (λ _ _. Ensures-parsed tt))

  pub relocate_all-Ensures :
      (sections : List Section) (text_shndx : ℕ) (rest : List Section) (text : List ℕ)
      → AreInside elf sections
      → AreInside elf rest
      → AreBytes text
      → Ensures (IsText text) (relocate_all vm elf sections text_shndx rest text)
  unfolding relocate_all
  relocate_all-Ensures sections text_shndx [] text inside p t =
      Ensures-parsed (record { bytes = t; same_length = refl })
  relocate_all-Ensures sections text_shndx (rel ∷ rest) text inside (p, q) t =
      Ensures-bind (is_relocation-Ensures text_shndx rel p) (λ chosen _.
        Ensures-bind
          (Ensures-if chosen (λ _. relocate_section-Ensures sections rel text inside p t)
            (λ _. Ensures-parsed {P = IsText text} (record { bytes = t; same_length = refl })))
          (λ text' p'.
            Ensures-weaken (relocate_all-Ensures sections text_shndx rest text' inside q p'.bytes)
              (λ text'' q'. IsText-trans p' q')))
