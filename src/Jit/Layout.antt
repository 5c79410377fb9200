-- ===== src/Jit/Layout.antt =====
-- About the buffer of `struct jit_state` (tools/ubpf/vm/ubpf_jit_x86_64.h): where the fields of the
-- jumps lie in it.
pub mod Program
pub mod Fields
use mathlib.Core.Path.{subst}
use ve_bpf.Base.{
  sym, ap, ◌∙◌, zero, suc, ℕ, ◌+◌, ◌-◌, ◌≤◌, ◌≡◌, refl, Bool, true, false, List, [], ◌∷◌, ◌++◌,
  arith, length, length-append, if◌then◌else◌,
}
use ve_bpf.Base.Word.{u32}
use ve_bpf.Ebpf.Encoding.{to_bytes}
use ve_bpf.Ebpf.Encoding.RoundTrip.{length-to_bytes}
use ve_bpf.Jit.State.{Jump, Jit, offset}
use ve_bpf.Jit.Keeps.{jump_at, with_jump, IsKept}

-- The four bytes of each jump begin at or after the end of the one before, and end by `hi`.
abbrev pub ArePlaced : ℕ → List Jump → ℕ → Type 0
ArePlaced lo [] hi = lo ≤ hi
ArePlaced lo (jump ∷ jumps) hi = (lo ≤ jump.offset_loc) × ArePlaced (jump.offset_loc + 4) jumps hi

-- The fields lie in order in the code, the code fits the buffer, and no recorded location is behind
-- the end of the code.
pub record IsLaidOut (s : Jit) : Type 0 where
  pub placed : ArePlaced 0 s.jumps (offset s)
  pub fits : offset s ≤ s.size
  pub pc_locs_within : (i : ℕ) → s.pc_locs i ≤ offset s
  pub exit_loc_within : s.exit_loc ≤ offset s
  pub div_by_zero_loc_within : s.div_by_zero_loc ≤ offset s

-- Code is written without breaking the layout, in a buffer that keeps its size.
pub record KeepsLayout (s s' : Jit) : Type 0 where
  pub layout : IsLaidOut s → IsLaidOut s'
  pub same_size : s'.size ≡ s.size

ArePlaced-le :
    (lo : ℕ) (jumps : List Jump) (hi hi' : ℕ)
    → hi ≤ hi'
    → ArePlaced lo jumps hi
    → ArePlaced lo jumps hi'
ArePlaced-le lo [] hi hi' h p = omega arith
ArePlaced-le lo (j ∷ js) hi hi' h p = (p.0, ArePlaced-le (j.offset_loc + 4) js hi hi' h p.1)

ArePlaced-add :
    (lo : ℕ) (jumps : List Jump) (hi : ℕ) (j : Jump)
    → ArePlaced lo jumps hi
    → j.offset_loc ≡ hi
    → ArePlaced lo (jumps ++ j ∷ []) (hi + 4)
ArePlaced-add lo [] hi j p e = (omega arith, omega arith)
ArePlaced-add lo (i ∷ is) hi j p e = (p.0, ArePlaced-add (i.offset_loc + 4) is hi j p.1 e)

appended :
    (s : Jit) (bytes : List ℕ)
    → IsLaidOut s
    → offset s + length bytes ≤ s.size
    → IsLaidOut (record s { buf = s.buf ++ bytes })
appended s bytes l room =
    let more = length-append s.buf bytes in
    record {
      placed = ArePlaced-le 0 s.jumps (offset s) (length (s.buf ++ bytes)) (omega arith) l.placed;
      fits = omega arith;
      pc_locs_within = λ i. omega (arith, l.pc_locs_within i);
      exit_loc_within = omega (arith, l.exit_loc_within);
      div_by_zero_loc_within = omega (arith, l.div_by_zero_loc_within);
    }

jumped :
    (s : Jit) (target_pc : ℕ)
    → IsLaidOut s
    → offset s + 4 ≤ s.size
    → IsLaidOut (with_jump s target_pc)
unfolding to_bytes
jumped s target_pc l room =
    let more = length-append s.buf (0 ∷ 0 ∷ 0 ∷ 0 ∷ []) in
    record {
      placed = rw more (ArePlaced-add 0 s.jumps (offset s) (jump_at s target_pc) l.placed refl);
      fits = omega arith;
      pc_locs_within = λ i. omega (arith, l.pc_locs_within i);
      exit_loc_within = omega (arith, l.exit_loc_within);
      div_by_zero_loc_within = omega (arith, l.div_by_zero_loc_within);
    }

pub KeepsLayout-IsKept : IsKept KeepsLayout (λ _. Unit {0})
KeepsLayout-IsKept = record {
  kept_refl = λ s. record { layout = λ l. l; same_size = refl };
  kept_trans = λ s t u p q. record {
    layout = λ l. q.layout (p.layout l);
    same_size = q.same_size ∙ p.same_size;
  };
  kept_bytes = λ s bytes room. record { layout = λ l. appended s bytes l room; same_size = refl };
  kept_jump = λ s target_pc allowed room. record {
    layout = λ l. jumped s target_pc l room;
    same_size = refl;
  };
}
