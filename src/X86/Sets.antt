-- ===== src/X86/Sets.antt =====
-- Code that sets one register of the processor, and changes rcx and the flags at most besides.
use mathlib.Core.List.{append_assoc}
use ve_bpf.Base.{ℕ, ◌≡◌, sym, ◌∙◌, false, Option, some, List, ◌++◌, ◌==◌, arith}
use mathlib.Core.Path.{subst}
use ve_bpf.Jit.State.{Emit, ◌>>◌}
use ve_bpf.Jit.Writes.{Writes, Writes->>}
use ve_bpf.X86.Format.{Instr}
use ve_bpf.X86.Machine.{Flags, Machine, with_reg, execute, Runs, stop, then_run}
use ve_bpf.X86.Reads.{Encodes}

pub record Sets (e : Emit) (m : Machine) (dst v : ℕ) : Type 0 where
  pub bytes : List ℕ
  pub written : Writes e bytes
  pub after : Machine
  pub runs : (rest : List ℕ) → Runs (bytes ++ rest) m rest after
  pub result : after.reg dst ≡ v
  pub kept : (r : ℕ) → (dst == r) ≡ false → (1 == r) ≡ false → after.reg r ≡ m.reg r

module _ (m : Machine) (dst v : ℕ) where
  -- One instruction.
  pub Sets-one :
      {e : Emit} {bytes : List ℕ} {i : Instr} (x : ℕ) (flags : Option Flags)
      → Writes e bytes
      → Encodes bytes i
      → execute i m ≡ some (with_reg m dst x flags)
      → x ≡ v
      → Sets e m dst v
  Sets-one {e} {bytes} {i} x flags written encodes runs value = record {
    bytes = bytes;
    written = written;
    after = with_reg m dst x flags;
    runs = λ rest. then_run (encodes.reads rest) runs stop;
    result = ground arith;
    kept = λ r h g. ground arith;
  }

  -- Before it another one that sets rcx.
  pub Sets-rcx :
      {e k : Emit} {bytes : List ℕ} {i : Instr} (x : ℕ) (flags : Option Flags)
      → Writes e bytes
      → Encodes bytes i
      → execute i m ≡ some (with_reg m 1 x flags)
      → Sets k (with_reg m 1 x flags) dst v
      → Sets (e >> k) m dst v
  Sets-rcx {e} {k} {bytes} {i} x flags written encodes runs next = record {
    bytes = bytes ++ next.bytes;
    written = Writes->> written next.written;
    after = next.after;
    runs = λ rest.
        subst (λ (l : List ℕ). Runs l m rest next.after) (sym (append_assoc bytes next.bytes rest))
          (then_run (encodes.reads (next.bytes ++ rest)) runs (next.runs rest));
    result = next.result;
    kept = λ r h g. next.kept r h g ∙ ground arith;
  }
