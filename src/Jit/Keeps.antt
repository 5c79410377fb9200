-- ===== src/Jit/Keeps.antt =====
-- About the functions that write to the buffer of `struct jit_state`
-- (tools/ubpf/vm/ubpf_jit_x86_64.h): relations between the states before and after.
pub mod Emitters
pub mod Cases
use mathlib.Core.Path.{subst}
use ve_bpf.Base.{
  ℕ, ◌+◌, ◌≤◌, ◌≡◌, refl, Bool, true, false, List, [], ◌∷◌, ◌++◌, arith, length, if◌then◌else◌,
}
use ve_bpf.Base.Word.{u32}
use ve_bpf.Ebpf.Encoding.{to_bytes}
use ve_bpf.Jit.State.{
  Jump, Jit, offset, Emitted, emitted, unknown_instruction, aborted, Emit, and_then, ◌>>◌, skip,
  when, assert, emit_bytes, emit1, emit2, emit4, emit8, emit_jump_offset,
}

-- A jump's four bytes are written, and recorded.
abbrev pub jump_at : Jit → ℕ → Jump
jump_at s target_pc = record { offset_loc = offset s; target_pc = u32 target_pc }

abbrev pub with_jump : Jit → ℕ → Jit
with_jump s target_pc = record s {
  buf = s.buf ++ to_bytes 4 0;
  jumps = s.jumps ++ jump_at s target_pc ∷ [];
}

abbrev pub with_bytes : Jit → List ℕ → Jit
with_bytes s bytes = record s { buf = s.buf ++ bytes }

-- A relation that holds from before to after a write, and of a sequence of writes, where `P` holds
-- of the targets of the jumps.
pub record IsKept (R : Jit → Jit → Type 0) (P : ℕ → Type 0) : Type 0 where
  pub kept_refl : (s : Jit) → R s s
  pub kept_trans : (s t u : Jit) → R s t → R t u → R s u
  pub kept_bytes :
      (s : Jit) (bytes : List ℕ) → offset s + length bytes ≤ s.size → R s (with_bytes s bytes)
  pub kept_jump :
      (s : Jit) (target_pc : ℕ)
      → P (u32 target_pc)
      → offset s + 4 ≤ s.size
      → R s (with_jump s target_pc)

-- A function that emits code leads from a state to a related one.
pub record Keeps (R : Jit → Jit → Type 0) (m : Emit) : Type 0 where
  pub keeps : (s s' : Jit) → m s ≡ emitted s' → R s s'

and_then-Keeps :
    {R : Jit → Jit → Type 0} {P : ℕ → Type 0} (m k : Emit) (s s' : Jit) (e : Emitted)
    → IsKept R P
    → Keeps R m
    → Keeps R k
    → m s ≡ e
    → and_then e k ≡ emitted s'
    → R s s'
and_then-Keeps m k s s' (emitted t) r a b p q = r.kept_trans s t s' (a.keeps s t p) (b.keeps t s' q)
and_then-Keeps m k s s' (unknown_instruction i) r a b p q = absurd (cc)
and_then-Keeps m k s s' aborted r a b p q = absurd (cc)

and_then-emitted :
    (e : Emitted) (k : Emit) (s' : Jit)
    → and_then e k ≡ emitted s'
    → (t : Jit) × (e ≡ emitted t) × (k t ≡ emitted s')
and_then-emitted (emitted t) k s' h = (t, refl, h)
and_then-emitted (unknown_instruction i) k s' h = absurd (cc)
and_then-emitted aborted k s' h = absurd (cc)

-- The state between two parts.
pub >>-emitted :
    (m k : Emit) (s s' : Jit)
    → (m >> k) s ≡ emitted s'
    → (t : Jit) × (m s ≡ emitted t) × (k t ≡ emitted s')
>>-emitted m k s s' h = and_then-emitted (m s) k s' h

pub Keeps->> :
    {R : Jit → Jit → Type 0} {P : ℕ → Type 0} {m k : Emit}
    → IsKept R P
    → Keeps R m
    → Keeps R k
    → Keeps R (m >> k)
Keeps->> {m} {k} r a b = record { keeps = λ s s' e. and_then-Keeps m k s s' (m s) r a b refl e }

pub Keeps-skip : {R : Jit → Jit → Type 0} {P : ℕ → Type 0} → IsKept R P → Keeps R skip
Keeps-skip {R} r = record {
  keeps = λ s s' e. let same : s ≡ s' = cc in subst (R s) same (r.kept_refl s);
}

pub Keeps-if :
    {R : Jit → Jit → Type 0} (b : Bool) {m k : Emit}
    → Keeps R m
    → Keeps R k
    → Keeps R (if b then m else k)
Keeps-if true a c = a
Keeps-if false a c = c

pub Keeps-when :
    {R : Jit → Jit → Type 0} {P : ℕ → Type 0} (b : Bool) {m : Emit}
    → IsKept R P
    → Keeps R m
    → Keeps R (when b m)
Keeps-when true r a = record { keeps = a.keeps }
Keeps-when false r a = record { keeps = (Keeps-skip r).keeps }

pub Keeps-assert :
    {R : Jit → Jit → Type 0} {P : ℕ → Type 0} (b : Bool) → IsKept R P → Keeps R (assert b)
Keeps-assert true r = record { keeps = (Keeps-skip r).keeps }
Keeps-assert false r = record { keeps = λ s s' e. absurd (cc) }

pub emit_bytes-emitted :
    (bytes : List ℕ) (s s' : Jit)
    → emit_bytes bytes s ≡ emitted s'
    → (with_bytes s bytes ≡ s') × (offset s + length bytes ≤ s.size)
unfolding emit_bytes
emit_bytes-emitted bytes s s' h = ground arith

pub Keeps-bytes :
    {R : Jit → Jit → Type 0} {P : ℕ → Type 0} (bytes : List ℕ)
    → IsKept R P
    → Keeps R (emit_bytes bytes)
Keeps-bytes {R} bytes r = record {
  keeps = λ s s' e.
      let (same, room) = emit_bytes-emitted bytes s s' e in
      subst (R s) same (r.kept_bytes s bytes room);
}

pub emit_jump_offset-emitted :
    (target_pc : ℕ) (s s' : Jit)
    → emit_jump_offset target_pc s ≡ emitted s'
    → (with_jump s target_pc ≡ s') × (offset s + 4 ≤ s.size)
unfolding emit_jump_offset
emit_jump_offset-emitted target_pc s s' h =
    emit_bytes-emitted (to_bytes 4 0)
      (record s {
        jumps = s.jumps ++ record { offset_loc = offset s; target_pc = u32 target_pc } ∷ [];
      })
      s' h

pub Keeps-jump :
    {R : Jit → Jit → Type 0} {P : ℕ → Type 0} (target_pc : ℕ)
    → IsKept R P
    → P (u32 target_pc)
    → Keeps R (emit_jump_offset target_pc)
Keeps-jump {R} target_pc r allowed = record {
  keeps = λ s s' e.
      let (same, room) = emit_jump_offset-emitted target_pc s s' e in
      subst (R s) same (r.kept_jump s target_pc allowed room);
}
