-- ===== src/Jit/Layout/Fields.antt =====
-- About what `resolve_jumps` (tools/ubpf/vm/ubpf_jit_x86_64.c) writes into the code.
use mathlib.Core.Path.{subst}
use ve_bpf.Base.{
  ℕ, zero, suc, ◌+◌, ◌%◌, ◌^◌, ◌≤◌, ◌<◌, ◌≡◌, refl, ◌∙◌, ◌⊎◌, inl, inr, some, List, [], ◌∷◌, arith,
  length, get_elem?, set, length-set, get_elem?-set_self, get_elem?-set_ne,
}
use ve_bpf.Vm.State.{Vm}
use ve_bpf.Ebpf.{Inst}
use ve_bpf.Ebpf.Encoding.{to_bytes}
use ve_bpf.Ebpf.Encoding.RoundTrip.{length-to_bytes}
use ve_bpf.Jit.State.{Jump, Jit, offset, emitted}
use ve_bpf.Jit.Compile.{initial}
use ve_bpf.Jit.Translate.{Host, translate}
use ve_bpf.Jit.Resolve.{write, target_loc, relative, resolve_from, resolve_jumps}
use ve_bpf.Jit.Layout.{ArePlaced, IsLaidOut}
use ve_bpf.Jit.Layout.Program.{translate-IsLaidOut}

pub length-write :
    (buf : List ℕ) (at : ℕ) (bytes : List ℕ) → length (write buf at bytes) ≡ length buf
unfolding write
length-write buf at [] = refl
length-write buf at (b ∷ bs) =
    omega (arith, length-write (set buf at b) (at + 1) bs, length-set buf at b)

write_before :
    (buf : List ℕ) (at : ℕ) (bytes : List ℕ) (i : ℕ)
    → i < at
    → get_elem? (write buf at bytes) i ≡ get_elem? buf i
unfolding write
write_before buf at [] i h = refl
write_before buf at (b ∷ bs) i h =
    write_before (set buf at b) (at + 1) bs i (omega arith)
    ∙ get_elem?-set_ne buf at i b (λ e. omega arith)

write_after :
    (buf : List ℕ) (at : ℕ) (bytes : List ℕ) (i : ℕ)
    → at + length bytes ≤ i
    → get_elem? (write buf at bytes) i ≡ get_elem? buf i
unfolding write
write_after buf at [] i h = refl
write_after buf at (b ∷ bs) i h =
    write_after (set buf at b) (at + 1) bs i (omega arith)
    ∙ get_elem?-set_ne buf at i b (λ e. omega arith)

write_inside :
    (buf : List ℕ) (at : ℕ) (bytes : List ℕ) (k : ℕ)
    → at + length bytes ≤ length buf
    → k < length bytes
    → get_elem? (write buf at bytes) (at + k) ≡ get_elem? bytes k
unfolding write
write_inside buf at [] k room h = elim h [ ]
write_inside buf at (b ∷ bs) zero room h =
    let same : at + 0 ≡ at = omega arith in
    rw same (
      write_before (set buf at b) (at + 1) bs at (omega arith)
      ∙ get_elem?-set_self buf at b (omega arith))
write_inside buf at (b ∷ bs) (suc k) room h =
    let same : at + suc k ≡ at + 1 + k = omega arith in
    rw same
      (write_inside (set buf at b) (at + 1) bs k (omega (arith, length-set buf at b)) (omega arith))

-- The four bytes of `jump` in the resolved code.
abbrev pub field : Jit → Jump → List ℕ
field s jump = to_bytes 4 (relative s jump)

-- No jump has byte `i` among its four bytes.
abbrev pub IsApart : ℕ → List Jump → Type 0
IsApart i jumps =
    (n : ℕ) (jump : Jump)
    → get_elem? jumps n ≡ some jump
    → (i < jump.offset_loc) ⊎ (jump.offset_loc + 4 ≤ i)

pub length-resolve_from :
    (s : Jit) (jumps : List Jump) (buf : List ℕ) → length (resolve_from s jumps buf) ≡ length buf
unfolding resolve_from
length-resolve_from s [] buf = refl
length-resolve_from s (j ∷ js) buf =
    length-resolve_from s js (write buf j.offset_loc (field s j))
    ∙ length-write buf j.offset_loc (field s j)

resolve_from_before :
    (s : Jit) (lo hi : ℕ) (jumps : List Jump) (buf : List ℕ) (i : ℕ)
    → ArePlaced lo jumps hi
    → i < lo
    → get_elem? (resolve_from s jumps buf) i ≡ get_elem? buf i
unfolding resolve_from
resolve_from_before s lo hi [] buf i p h = refl
resolve_from_before s lo hi (j ∷ js) buf i (above, p) h =
    resolve_from_before s (j.offset_loc + 4) hi js (write buf j.offset_loc (field s j)) i p
      (omega arith)
    ∙ write_before buf j.offset_loc (field s j) i (omega arith)

write_apart :
    (s : Jit) (buf : List ℕ) (j : Jump) (i : ℕ)
    → (i < j.offset_loc) ⊎ (j.offset_loc + 4 ≤ i)
    → get_elem? (write buf j.offset_loc (field s j)) i ≡ get_elem? buf i
write_apart s buf j i (inl h) = write_before buf j.offset_loc (field s j) i h
write_apart s buf j i (inr h) =
    write_after buf j.offset_loc (field s j) i (omega (arith, length-to_bytes 4 (relative s j)))

resolve_from_apart :
    (s : Jit) (jumps : List Jump) (buf : List ℕ) (i : ℕ)
    → IsApart i jumps
    → get_elem? (resolve_from s jumps buf) i ≡ get_elem? buf i
unfolding resolve_from
resolve_from_apart s [] buf i apart = refl
resolve_from_apart s (j ∷ js) buf i apart =
    resolve_from_apart s js (write buf j.offset_loc (field s j)) i (λ n. apart (suc n))
    ∙ write_apart s buf j i (apart 0 j refl)

ArePlaced-end : (lo hi : ℕ) (jumps : List Jump) → ArePlaced lo jumps hi → lo ≤ hi
ArePlaced-end lo hi [] p = p
ArePlaced-end lo hi (j ∷ js) (above, p) = omega (arith, ArePlaced-end (j.offset_loc + 4) hi js p)

resolve_from-field :
    (s : Jit) (lo hi : ℕ) (jumps : List Jump) (buf : List ℕ) (n : ℕ) (j : Jump) (k : ℕ)
    → ArePlaced lo jumps hi
    → hi ≤ length buf
    → get_elem? jumps n ≡ some j
    → k < 4
    → get_elem? (resolve_from s jumps buf) (j.offset_loc + k) ≡ get_elem? (field s j) k
unfolding resolve_from
resolve_from-field s lo hi [] buf n j k p room at h = cc
resolve_from-field s lo hi (i ∷ is) buf zero j k (above, p) room at h =
    let same : i ≡ j = cc in
    let last = ArePlaced-end (i.offset_loc + 4) hi is p in
    let four = length-to_bytes 4 (relative s i) in
    subst
      (λ (t : Jump).
        get_elem? (resolve_from s (i ∷ is) buf) (t.offset_loc + k) ≡ get_elem? (field s t) k)
      same
      (resolve_from_before s (i.offset_loc + 4) hi is (write buf i.offset_loc (field s i))
          (i.offset_loc + k) p (omega arith)
        ∙ write_inside buf i.offset_loc (field s i) k (omega arith) (omega arith))
resolve_from-field s lo hi (i ∷ is) buf (suc n) j k (above, p) room at h =
    resolve_from-field s (i.offset_loc + 4) hi is (write buf i.offset_loc (field s i)) n j k p
      (omega (arith, length-write buf i.offset_loc (field s i))) at h

-- What the loop over the jumps makes of the code in `s`: it keeps its length, leaves every byte that
-- is no part of a jump's field, and writes to the field of each jump its displacement, lowest byte
-- first.
pub record IsResolved (s : Jit) (code : List ℕ) : Type 0 where
  pub same_length : length code ≡ length s.buf
  pub elsewhere : (i : ℕ) → IsApart i s.jumps → get_elem? code i ≡ get_elem? s.buf i
  pub fields :
      (n : ℕ) (jump : Jump) (k : ℕ)
      → get_elem? s.jumps n ≡ some jump
      → k < 4
      → get_elem? code (jump.offset_loc + k) ≡ get_elem? (field s jump) k

-- When `translate` succeeds from the state that `ubpf_compile` gives it, `resolve_jumps` keeps
-- the length of the code and all its bytes but the four of each recorded jump, which then hold
-- its displacement, lowest byte first.
pub resolve_jumps-IsResolved :
    (host : Host) (vm : Vm) (insts : List Inst) (s : Jit)
    → translate host vm insts initial ≡ emitted s
    → IsResolved s (resolve_jumps s)
unfolding resolve_jumps
resolve_jumps-IsResolved host vm insts s e =
    let (laid, room) = translate-IsLaidOut host vm insts s e in
    record {
      same_length = length-resolve_from s s.jumps s.buf;
      elsewhere = λ i. resolve_from_apart s s.jumps s.buf i;
      fields =
          λ n j k. resolve_from-field s 0 (offset s) s.jumps s.buf n j k laid.placed (omega arith);
    }

relative-target :
    (s : Jit) (jump : Jump)
    → (jump.offset_loc + 4 + relative s jump) % 2 ^ 32 ≡ target_loc s jump % 2 ^ 32
unfolding relative
relative-target s jump = omega arith

target_loc-le : (s : Jit) (jump : Jump) → IsLaidOut s → target_loc s jump ≤ offset s
unfolding target_loc
target_loc-le s jump l =
    ground (arith, l.pc_locs_within jump.target_pc, l.exit_loc_within, l.div_by_zero_loc_within)

-- When `translate` succeeds from the state that `ubpf_compile` gives it, the displacement that
-- `resolve_jumps` computes for a jump leads from behind its four bytes, modulo 2 ^ 32, to the location
-- recorded for its target, and that location is in the code or at its end.
pub relative-target_loc :
    (host : Host) (vm : Vm) (insts : List Inst) (s : Jit) (jump : Jump)
    → translate host vm insts initial ≡ emitted s
    → ((jump.offset_loc + 4 + relative s jump) % 2 ^ 32 ≡ target_loc s jump)
      × (target_loc s jump ≤ offset s)
relative-target_loc host vm insts s jump e =
    let (laid, room) = translate-IsLaidOut host vm insts s e in
    let inside = target_loc-le s jump laid in (omega (arith, relative-target s jump), inside)
