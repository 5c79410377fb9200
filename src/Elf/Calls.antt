-- ===== src/Elf/Calls.antt =====
-- About a relocation of `ubpf_load_elf` (tools/ubpf/vm/ubpf_loader.c) as the call that it links: the
-- function that its name stands for, and the instruction that it changes.
use mathlib.Core.Path.{subst}
use ve_bpf.Base.{
  ℕ, zero, suc, ◌+◌, ◌-◌, ◌*◌, ◌^◌, ◌≤◌, ◌<◌, ◌≡◌, ◌↔◌, refl, ap, ◌∙◌, List, [], ◌∷◌, ◌++◌, arith,
  length, get_elem?, get_elem?-lt, set, some,
}
use ve_bpf.Base.Word.{u64}
use ve_bpf.Ebpf.{Inst}
use ve_bpf.Ebpf.Encoding.{to_bytes, inst_bytes, insts_bytes}
use ve_bpf.Ebpf.Encoding.RoundTrip.{length-insts_bytes}
use ve_bpf.Jit.Resolve.{write}
use ve_bpf.Elf.File.{text_write, parsed, outside, fail_if}
use ve_bpf.Elf.Relocate.{check_offset, write_imm}

-- A relocation offset that passes the check is written outside the copy of the text exactly when it is
-- one of the four from 2 ^ 64 - 8 on: the sum in the check wraps around.
pub write_imm-outside :
    (text : List ℕ) (r_offset imm : ℕ)
    → length text < 2 ^ 63
    → r_offset < 2 ^ 64
    → check_offset text r_offset ≡ parsed tt
    → (write_imm text r_offset imm ≡ outside text_write)
      ↔ ((2 ^ 64 - 8 ≤ r_offset) × (r_offset < 2 ^ 64 - 4))
unfolding check_offset write_imm fail_if
write_imm-outside text r_offset imm small word passes = ground arith

set-append : (xs ys : List ℕ) (at v : ℕ) → set (xs ++ ys) (length xs + at) v ≡ xs ++ set ys at v
set-append [] ys at v = let same : 0 + at ≡ at = omega arith in rw same refl
set-append (x ∷ xs) ys at v =
    let same : suc (length xs) + at ≡ suc (length xs + at) = omega arith in
    rw same (ap (λ (zs : List ℕ). x ∷ zs) (set-append xs ys at v))

write-append :
    (xs ys : List ℕ) (at : ℕ) (bs : List ℕ)
    → write (xs ++ ys) (length xs + at) bs ≡ xs ++ write ys at bs
unfolding write
write-append xs ys at [] = refl
write-append xs ys at (b ∷ bs) =
    let same : length xs + at + 1 ≡ length xs + (at + 1) = omega arith in
    rw (set-append xs ys at b, same) (write-append xs (set ys at b) (at + 1) bs)

abbrev pub with_imm : Inst → ℕ → Inst
with_imm inst imm = record inst { imm = imm }

length-inst_bytes : (x : Inst) → length (inst_bytes x) ≡ 8
unfolding inst_bytes to_bytes
length-inst_bytes x = refl

write-inst_bytes :
    (x : Inst) (rest : List ℕ) (imm : ℕ)
    → write (inst_bytes x ++ rest) 4 (to_bytes 4 imm) ≡ inst_bytes (with_imm x imm) ++ rest
unfolding write inst_bytes to_bytes
write-inst_bytes x rest imm = refl

write-insts_bytes :
    (is : List Inst) (i imm : ℕ) (inst : Inst)
    → get_elem? is i ≡ some inst
    → write (insts_bytes is) (8 * i + 4) (to_bytes 4 imm)
      ≡ insts_bytes (set is i (with_imm inst imm))
unfolding insts_bytes
write-insts_bytes [] i imm inst h = cc
write-insts_bytes (x ∷ is) zero imm inst h =
    let same : x ≡ inst = cc in
    subst
      (λ (y : Inst).
        write (inst_bytes x ++ insts_bytes is) 4 (to_bytes 4 imm)
        ≡ inst_bytes (with_imm y imm) ++ insts_bytes is)
      same (write-inst_bytes x (insts_bytes is) imm)
write-insts_bytes (x ∷ is) (suc i) imm inst h =
    let same : 8 * suc i + 4 ≡ length (inst_bytes x) + (8 * i + 4) =
      omega (arith, length-inst_bytes x) in
    rw same (
      write-append (inst_bytes x) (insts_bytes is) (8 * i + 4) (to_bytes 4 imm)
      ∙ ap (λ (bs : List ℕ). inst_bytes x ++ bs) (write-insts_bytes is i imm inst h))

-- A relocation of an instruction sets its immediate to the index of the function, and leaves the rest
-- of the code.
pub write_imm-insts_bytes :
    (is : List Inst) (i imm : ℕ) (inst : Inst)
    → length is < 2 ^ 60
    → get_elem? is i ≡ some inst
    → (check_offset (insts_bytes is) (8 * i) ≡ parsed tt)
      × (write_imm (insts_bytes is) (8 * i) imm
          ≡ parsed (insts_bytes (set is i (with_imm inst imm))))
unfolding check_offset write_imm fail_if
write_imm-insts_bytes is i imm inst small h =
    let count = length-insts_bytes is in
    let inside = get_elem?-lt is i h in
    let same : u64 (8 * i + 4) ≡ 8 * i + 4 = omega arith in
    let written = write-insts_bytes is i imm inst h in (ground arith, ground arith)
