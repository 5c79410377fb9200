-- ===== src/Vm/Exec/Reach.antt =====
-- About the states that a call of `ubpf_exec` (tools/ubpf/vm/ubpf_vm.c) passes through, for any
-- number of rounds.

use ve_bpf.Base.{ℕ, ℕ, ◌≡◌, refl, ◌∙◌, true, List, arith}
use ve_bpf.Ebpf.{Inst}
use ve_bpf.Ebpf.Encoding.RoundTrip.{AreInsts}
use ve_bpf.Vm.State.{Vm}
use ve_bpf.Vm.Validate.Sound.{IsValidated}
use ve_bpf.Vm.Exec.Flow.{IsPosition, step-IsPosition}
use ve_bpf.Vm.Exec.Frame.{IsPlaced, IsOutside, CallsKeep, step-frame}
use ve_bpf.Vm.Exec.Registers.{step-registers}
use ve_bpf.Vm.Exec.{Context, State, next, step}

-- The states after any number of rounds.
pub data Reaches (c : Context) (s : State) : State → Type 0 where
  here : Reaches c s s
  round : {t u : State} → Reaches c s t → step c t ≡ next u → Reaches c s u

pub start-IsPosition : (vm : Vm) (code : List Inst) → IsValidated vm code → IsPosition code 0
start-IsPosition vm code v = record { within = omega arith; start = v.first }

module _ (c : Context) (valid_code : IsValidated c.vm c.code) (fields : AreInsts c.code) where
  pub Reaches-IsPosition :
      {s t : State} → IsPosition c.code s.pc → Reaches c s t → IsPosition c.code t.pc
  Reaches-IsPosition p here = p
  Reaches-IsPosition p (round {t} {u} r h) =
      step-IsPosition c valid_code fields t u (Reaches-IsPosition p r) h

  -- Let the code have passed `validate`, with fields of their C widths. From a state with counter
  -- 0 on, after any number of rounds, the counter is at most the length of the code, it is not on
  -- an instruction with opcode 0, the second half of an `lddw`, and r10 has kept its value.
  pub Reaches-contained :
      {s t : State} → s.pc ≡ 0 → Reaches c s t → IsPosition c.code t.pc × (t.reg 10 ≡ s.reg 10)
  Reaches-contained {s} e r =
      let p : IsPosition c.code s.pc = rw e (start-IsPosition c.vm c.code valid_code) in
      (Reaches-IsPosition p r, frame_pointer p r)
    where
      frame_pointer : {s t : State} → IsPosition c.code s.pc → Reaches c s t → t.reg 10 ≡ s.reg 10
      frame_pointer p here = refl
      frame_pointer p (round {t} {u} r h) =
          step-registers c valid_code 10 (omega arith) t u (Reaches-IsPosition p r) h
          ∙ frame_pointer p r

-- With the bounds check on, a context and a stack that end below 2 ^ 64, and external functions
-- that keep the byte at `a`, any number of rounds keeps it too, for each `a` from 7 up to 2 ^ 64
-- - 8 that is in neither the context nor the stack. Nothing is asked of the code.
pub Reaches-frame :
    (c : Context) (a : ℕ)
    → c.vm.bounds_check_enabled ≡ true
    → IsPlaced c
    → IsOutside c a
    → CallsKeep c.vm a
    → {s t : State} → Reaches c s t
    → t.memory a ≡ s.memory a
Reaches-frame c a on p o k here = refl
Reaches-frame c a on p o k (round {t} {u} r h) =
    step-frame c a on p o k t u h ∙ Reaches-frame c a on p o k r
