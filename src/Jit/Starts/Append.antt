-- ===== src/Jit/Starts/Append.antt =====
-- About what later code leaves as it is in `translate`
-- (tools/ubpf/vm/ubpf_jit_x86_64.c).
use mathlib.Core.Path.{subst}
use mathlib.Core.List.{append_assoc, append-nil}
use ve_bpf.Base.{
  sym, ap, ◌∙◌, ℕ, ◌+◌, ◌≤◌, ◌<◌, ◌≡◌, refl, Bool, true, false, List, [], ◌∷◌, ◌++◌, arith,
}
use ve_bpf.Ebpf.{Inst}
use ve_bpf.Ebpf.Encoding.{to_bytes}
use ve_bpf.Ebpf.Opcode.{decode}
use ve_bpf.Vm.State.{Vm}
use ve_bpf.Vm.Memory.{update}
use ve_bpf.Vm.Validate.{is_lddw}
use ve_bpf.Jit.State.{Jit, Emit, offset, emitted}
use ve_bpf.Jit.Translate.{
  Host, translate_inst, translate_from, set_pc_loc, set_exit_loc, set_div_by_zero_loc,
}
use ve_bpf.Jit.Keeps.{with_bytes, with_jump, Keeps, Keeps->>, IsKept}
use ve_bpf.Jit.Keeps.Cases.{translate_mapped-Keeps}

-- Code is appended, and no location of an instruction below `n` changes.
pub record Extends (n : ℕ) (s s' : Jit) : Type 0 where
  pub bytes : List ℕ
  pub longer : s'.buf ≡ s.buf ++ bytes
  pub same_locs : (i : ℕ) → i < n → s'.pc_locs i ≡ s.pc_locs i

pub Extends-refl : (n : ℕ) (s : Jit) → Extends n s s
Extends-refl n s = record { bytes = []; longer = sym (append-nil s.buf); same_locs = λ i h. refl }

pub Extends-trans : (n : ℕ) (s t u : Jit) → Extends n s t → Extends n t u → Extends n s u
Extends-trans n s t u p q = record {
  bytes = p.bytes ++ q.bytes;
  longer =
      q.longer ∙ ap (λ (b : List ℕ). b ++ q.bytes) p.longer ∙ append_assoc s.buf p.bytes q.bytes;
  same_locs = λ i h. q.same_locs i h ∙ p.same_locs i h;
}

pub Extends-IsKept : (n : ℕ) → IsKept (Extends n) (λ _. Unit {0})
Extends-IsKept n = record {
  kept_refl = Extends-refl n;
  kept_trans = Extends-trans n;
  kept_bytes = λ s bytes room. record { bytes = bytes; longer = refl; same_locs = λ i h. refl };
  kept_jump = λ s target_pc allowed room. record {
    bytes = to_bytes 4 0;
    longer = refl;
    same_locs = λ i h. refl;
  };
}

pub set_exit_loc-Extends : (n : ℕ) → Keeps (Extends n) set_exit_loc
set_exit_loc-Extends n = record {
  keeps = λ s s' e.
      let same : record s { exit_loc = offset s } ≡ s' = cc in
      subst (Extends n s) same
        (record { bytes = []; longer = sym (append-nil s.buf); same_locs = λ i h. refl });
}

pub set_div_by_zero_loc-Extends : (n : ℕ) → Keeps (Extends n) set_div_by_zero_loc
set_div_by_zero_loc-Extends n = record {
  keeps = λ s s' e.
      let same : record s { div_by_zero_loc = offset s } ≡ s' = cc in
      subst (Extends n s) same
        (record { bytes = []; longer = sym (append-nil s.buf); same_locs = λ i h. refl });
}

pub set_pc_loc-Extends : (n i : ℕ) → n ≤ i → Keeps (Extends n) (set_pc_loc i)
set_pc_loc-Extends n i h = record {
  keeps = λ s s' e.
      let same : record s { pc_locs = update s.pc_locs i (offset s) } ≡ s' = cc in
      subst (Extends n s) same
        (record { bytes = []; longer = sym (append-nil s.buf); same_locs = λ k l. ground arith });
}

pub set_pc_loc-at : (i : ℕ) (s t : Jit) → set_pc_loc i s ≡ emitted t → t.pc_locs i ≡ offset t
set_pc_loc-at i s t e =
    let same : record s { pc_locs = update s.pc_locs i (offset s) } ≡ t = cc in
    subst (λ (u : Jit). u.pc_locs i ≡ offset u) same (ground arith)

module _ (host : Host) (vm : Vm) (insts : List Inst) where
  pub translate_inst-Extends :
      (n i : ℕ) (inst : Inst) → n ≤ i → Keeps (Extends n) (translate_inst host vm insts i inst)
  unfolding translate_inst
  translate_inst-Extends n i inst h =
      Keeps->> (Extends-IsKept n) (set_pc_loc-Extends n i h)
        (translate_mapped-Keeps (Extends-IsKept n) tt tt vm insts i inst _ _ (λ _. tt))

  pub translate_from-Extends :
      (n : ℕ) (skips : Bool) (i : ℕ) (rest : List Inst)
      → n ≤ i
      → Keeps (Extends n) (translate_from host vm insts skips i rest)
  unfolding translate_from
  translate_from-Extends n skips i [] h = record {
    keeps = λ s s' e. let same : s ≡ s' = cc in subst (Extends n s) same (Extends-refl n s);
  }
  translate_from-Extends n true i (inst ∷ rest) h =
      translate_from-Extends n false (i + 1) rest (omega arith)
  translate_from-Extends n false i (inst ∷ rest) h =
      Keeps->> (Extends-IsKept n) (translate_inst-Extends n i inst h)
        (translate_from-Extends n (is_lddw (decode inst.opcode)) (i + 1) rest (omega arith))

-- In the code of `s`, what `m` writes starts at `loc`.
pub record CodeAt (s : Jit) (loc : ℕ) (m : Emit) : Type 0 where
  pub before : Jit
  pub after : Jit
  pub bytes : List ℕ
  pub rest : List ℕ
  pub writes : m before ≡ emitted after
  pub written : after.buf ≡ before.buf ++ bytes
  pub placed : s.buf ≡ after.buf ++ rest
  pub start : loc ≡ offset before

-- Later code leaves it where it is.
pub CodeAt-append :
    (s s' : Jit) (loc loc' : ℕ) (m : Emit) (more : List ℕ)
    → CodeAt s loc m
    → s'.buf ≡ s.buf ++ more
    → loc' ≡ loc
    → CodeAt s' loc' m
CodeAt-append s s' loc loc' m more a longer same = record {
  before = a.before;
  after = a.after;
  bytes = a.bytes;
  rest = a.rest ++ more;
  writes = a.writes;
  written = a.written;
  placed = longer ∙ ap (λ (b : List ℕ). b ++ more) a.placed ∙ append_assoc a.after.buf a.rest more;
  start = same ∙ a.start;
}

pub CodeAt-last :
    (s s' : Jit) (loc : ℕ) (m : Emit) (bytes : List ℕ)
    → m s ≡ emitted s'
    → s'.buf ≡ s.buf ++ bytes
    → loc ≡ offset s
    → CodeAt s' loc m
CodeAt-last s s' loc m bytes e longer start = record {
  before = s;
  after = s';
  bytes = bytes;
  rest = [];
  writes = e;
  written = longer;
  placed = sym (append-nil s'.buf);
  start = start;
}

-- A field that no write changes.
pub record Same (f : Jit → ℕ) (s s' : Jit) : Type 0 where
  pub same : f s' ≡ f s

Same-IsKept :
    (f : Jit → ℕ)
    → ((s : Jit) (bytes : List ℕ) → f (with_bytes s bytes) ≡ f s)
    → ((s : Jit) (target_pc : ℕ) → f (with_jump s target_pc) ≡ f s)
    → IsKept (Same f) (λ _. Unit {0})
Same-IsKept f bytes_same jump_same = record {
  kept_refl = λ s. record { same = refl };
  kept_trans = λ s t u p q. record { same = q.same ∙ p.same };
  kept_bytes = λ s bytes room. record { same = bytes_same s bytes };
  kept_jump = λ s target_pc allowed room. record { same = jump_same s target_pc };
}

abbrev pub SameExit : Jit → Jit → Type 0
SameExit = Same (λ s. s.exit_loc)

abbrev pub SameHandler : Jit → Jit → Type 0
SameHandler = Same (λ s. s.div_by_zero_loc)

pub SameExit-IsKept : IsKept SameExit (λ _. Unit {0})
SameExit-IsKept = Same-IsKept _ (λ s bytes. refl) (λ s target_pc. refl)

pub SameHandler-IsKept : IsKept SameHandler (λ _. Unit {0})
SameHandler-IsKept = Same-IsKept _ (λ s bytes. refl) (λ s target_pc. refl)

pub set_div_by_zero_loc-SameExit : Keeps SameExit set_div_by_zero_loc
set_div_by_zero_loc-SameExit = record {
  keeps = λ s s' e.
      let here : record s { div_by_zero_loc = offset s } ≡ s' = cc in
      subst (SameExit s) here (record { same = refl });
}

pub set_exit_loc-at : (s t : Jit) → set_exit_loc s ≡ emitted t → t.exit_loc ≡ offset t
set_exit_loc-at s t e =
    let here : record s { exit_loc = offset s } ≡ t = cc in
    subst (λ (u : Jit). u.exit_loc ≡ offset u) here refl

pub set_div_by_zero_loc-at :
    (s t : Jit) → set_div_by_zero_loc s ≡ emitted t → t.div_by_zero_loc ≡ offset t
set_div_by_zero_loc-at s t e =
    let here : record s { div_by_zero_loc = offset s } ≡ t = cc in
    subst (λ (u : Jit). u.div_by_zero_loc ≡ offset u) here refl
