-- ===== src/X86/Computes.antt =====
-- The registers of the program in the registers of the processor, for the code that `translate`
-- (tools/ubpf/vm/ubpf_jit_x86_64.c) writes for one instruction.
use ve_bpf.Base.{
  ℕ, ◌<◌, ◌≡◌, refl, ◌∙◌, Bool, true, false, ltb, ◌==◌, arith, ==_iff, if◌then◌else◌, ◌||◌, ◌&&◌,
  not, List, ◌++◌,
}
use ve_bpf.Base.Table.{holds_below, holds_below-at}
use ve_bpf.Jit.Registers.{register_map, IsRearranged}
use ve_bpf.Ebpf.{Inst}
use ve_bpf.Ebpf.Opcode.{src_imm, src_reg, Opcode, alu, alu64, neg, neg64, be, lddw}
use ve_bpf.Vm.Memory.{update}
use ve_bpf.Vm.Alu.{AluResult, value}
use ve_bpf.Vm.Exec.{State, next, operand, set_dst, alu_outcome}
use ve_bpf.Jit.State.{Jit, emitted, Emit}
use ve_bpf.X86.Machine.{Machine, Runs}
use ve_bpf.X86.Sets.{Sets}
use ve_bpf.X86.Alu.{is_direct, is_mov, fits}

-- The registers of the program are distinct registers of the processor, and not rcx.
pub record IsMap (map : ℕ → ℕ) : Type 0 where
  pub within : (r : ℕ) → r < 11 → map r < 16
  pub not_rcx : (r : ℕ) → r < 11 → (1 == map r) ≡ false
  pub distinct : (r q : ℕ) → r < 11 → q < 11 → (r == q) ≡ false → (map r == map q) ≡ false

map_table :
    (holds_below 11 (λ r. ltb (register_map r) 16) ≡ true)
    × (holds_below 11 (λ r. not (1 == register_map r)) ≡ true)
    × (holds_below 11
          (λ r. holds_below 11 (λ q. if register_map r == register_map q then r == q else true))
        ≡ true)
unfolding holds_below
map_table = (refl, refl, refl)

-- The map of the compiler, as the process starts.
pub register_map-IsMap : IsMap register_map
register_map-IsMap = record {
  within = λ r h.
      let small = holds_below-at 11 (λ x. ltb (register_map x) 16) r map_table.0 h in ground arith;
  not_rcx = λ r h.
      let other = holds_below-at 11 (λ x. not (1 == register_map x)) r map_table.1 h in
      ground arith;
  distinct = λ r q h g e.
      let row = holds_below-at 11 _ r map_table.2 h in
      let cell =
        holds_below-at 11 (λ y. if register_map r == register_map y then r == y else true) q row
          g in
      ground arith;
}

-- And after `ubpf_set_register_offset` has put it in another order.
pub IsRearranged-IsMap : (map map' : ℕ → ℕ) → IsMap map → IsRearranged map map' → IsMap map'
IsRearranged-IsMap map map' p q = record {
  within = λ r h. rw (q.same r h) (p.within (q.index r) (q.within r h));
  not_rcx = λ r h. rw (q.same r h) (p.not_rcx (q.index r) (q.within r h));
  distinct = λ r k h g e.
      rw (q.same r h, q.same k g)
        (p.distinct (q.index r) (q.index k) (q.within r h) (q.within k g)
          (ground (arith, q.distinct r k h g)));
}

-- The processor holds these registers.
pub record Holds (map reg : ℕ → ℕ) (m : Machine) : Type 0 where
  pub holds : (r : ℕ) → r < 11 → m.reg (map r) ≡ reg r

-- The code between the two states of the compiler takes the processor from `m` to the registers `reg`.
pub record Computes (s s' : Jit) (m : Machine) (map reg : ℕ → ℕ) : Type 0 where
  pub bytes : List ℕ
  pub written : s'.buf ≡ s.buf ++ bytes
  pub after : Machine
  pub runs : (rest : List ℕ) → Runs (bytes ++ rest) m rest after
  pub result : Holds map reg after

-- The instructions whose code is compared: no multiplication or division, no 32-bit move of a register,
-- no 32-bit shift to the left by 32 or more, and of the byte swaps those of 32 and 64 bits.
abbrev pub is_covered : Inst → (ℕ → ℕ) → Opcode → Bool
is_covered inst reg (alu64 op s) = is_direct op
is_covered inst reg (alu op src_imm) = is_direct op && fits op (operand src_imm inst reg)
is_covered inst reg (alu op src_reg) =
    (is_direct op && not (is_mov op)) && fits op (operand src_reg inst reg)
is_covered inst reg neg = true
is_covered inst reg neg64 = true
is_covered inst reg be = inst.imm == 32 || inst.imm == 64
is_covered inst reg lddw = true
is_covered inst reg _ = false

changed_register :
    (m after : Machine) (map reg : ℕ → ℕ) (dst v r : ℕ) (same : Bool)
    → (dst == r) ≡ same
    → (same ≡ false → (map dst == map r) ≡ false)
    → after.reg (map dst) ≡ v
    → ((map dst == map r) ≡ false → after.reg (map r) ≡ reg r)
    → after.reg (map r) ≡ update reg dst v r
changed_register m after map reg dst v r true e apart result kept =
    let equal : dst ≡ r = (==_iff dst r).0 e in rw (e, ← equal) result
changed_register m after map reg dst v r false e apart result kept = rw e (kept (apart refl))

pub Sets-Computes :
    (e : Emit) (s s' : Jit) (m : Machine) (map reg : ℕ → ℕ) (dst v : ℕ)
    → IsMap map
    → Holds map reg m
    → dst < 11
    → e s ≡ emitted s'
    → Sets e m (map dst) v
    → Computes s s' m map (update reg dst v)
Sets-Computes e s s' m map reg dst v is_map same d emits sets = record {
  bytes = sets.bytes;
  written = sets.written.writes s s' emits;
  after = sets.after;
  runs = sets.runs;
  result = record {
    holds = λ r h.
        changed_register m sets.after map reg dst v r (dst == r) refl (is_map.distinct dst r d h)
          sets.result (λ g. sets.kept (map r) g (is_map.not_rcx r h) ∙ same.holds r h);
  };
}

pub alu_outcome-next :
    (cur : ℕ) (inst : Inst) (st st' : State) (r : AluResult)
    → alu_outcome cur inst st r ≡ next st'
    → (v : ℕ) × (r ≡ value v) × (set_dst inst st v ≡ st')
unfolding alu_outcome
alu_outcome-next cur inst st st' (AluResult.value v) h = (v, refl, cc)
alu_outcome-next cur inst st st' AluResult.div_by_zero h = absurd cc
alu_outcome-next cur inst st st' AluResult.undefined h = absurd cc
