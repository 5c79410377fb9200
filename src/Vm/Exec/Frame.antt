-- ===== src/Vm/Exec/Frame.antt =====
-- About `bounds_check` and the memory that a round of `ubpf_exec` writes
-- (tools/ubpf/vm/ubpf_vm.c).
use ve_bpf.Base.{
  ℕ, ◌+◌, ◌-◌, ◌^◌, ◌<◌, ◌≤◌, ◌≡◌, refl, ◌≢◌, ◌⊎◌, ◌↔◌, true, Option, none, some, arith, get_elem?,
}
use ve_bpf.Base.Word.{u16, u64}
use ve_bpf.Ebpf.{Inst}
use ve_bpf.Ebpf.Opcode.{Size, size_w, Opcode, call, st, stx, decode}
use ve_bpf.Vm.State.{Vm, ExtFunc, stack_size}
use ve_bpf.Vm.Memory.{Memory, store}
use ve_bpf.Vm.Memory.Laws.{store_frame}
use ve_bpf.Vm.Exec.{
  Context, State, next, bounds_check, size_bytes, address, store_outcome, call_outcome, exec_opcode,
  fetched, step,
}

-- The context and the stack end below 2 ^ 64.
pub record IsPlaced (c : Context) : Type 0 where
  pub mem_fits : c.mem_base + c.mem_len < 2 ^ 64
  pub stack_fits : c.stack + stack_size < 2 ^ 64

-- The access lies in the context or in the stack.
abbrev pub IsInside : Context → ℕ → ℕ → Type 0
IsInside c addr size =
    ((c.mem_base ≢ 0) × (c.mem_base ≤ addr) × (addr + size ≤ c.mem_base + c.mem_len))
    ⊎ ((c.stack ≤ addr) × (addr + size ≤ c.stack + stack_size))

-- With a context and a stack that end below 2 ^ 64, and where the sum of address and size stays
-- below 2 ^ 64, an enabled `bounds_check` passes exactly the accesses that lie in the context or
-- in the stack.
pub bounds_check_iff :
    (c : Context) (addr size : ℕ)
    → c.vm.bounds_check_enabled ≡ true
    → IsPlaced c
    → addr + size < 2 ^ 64
    → (bounds_check c addr size ≡ true) ↔ IsInside c addr size
unfolding bounds_check
bounds_check_iff c addr size on p w = ground arith

-- With a context that is not null, where the sum of an address behind the start of the context
-- and the size wraps to or below the end of the context, the check passes the access, which is
-- not in the context or the stack.
pub bounds_check-wraps :
    (c : Context) (addr size : ℕ)
    → IsPlaced c
    → c.mem_base ≢ 0
    → c.mem_base ≤ addr
    → addr < 2 ^ 64
    → 2 ^ 64 ≤ addr + size
    → addr + size ≤ 2 ^ 64 + c.mem_base + c.mem_len
    → (bounds_check c addr size ≡ true) × ¬ IsInside c addr size
unfolding bounds_check
bounds_check-wraps c addr size p z l a w v = ground arith

-- A byte in neither region, and not among those next to address 0 that a wrapping access reaches.
pub record IsOutside (c : Context) (a : ℕ) : Type 0 where
  pub above : 7 ≤ a
  pub below : a < 2 ^ 64 - 8
  pub not_context : (a < c.mem_base) ⊎ (c.mem_base + c.mem_len ≤ a)
  pub not_stack : (a < c.stack) ⊎ (c.stack + stack_size ≤ a)

-- The external functions write only to the context, the stack and memory of their own, which is
-- not at `a`.
abbrev pub CallsKeep : Vm → ℕ → Type 0
CallsKeep vm a =
    (i : ℕ) (fn : ExtFunc)
    → vm.ext_funcs i ≡ some fn
    → (a1 a2 a3 a4 a5 : ℕ) (memory : Memory) → (fn.apply a1 a2 a3 a4 a5 memory).1 a ≡ memory a

checked_byte :
    (c : Context) (a addr size k : ℕ)
    → bounds_check c addr size ≡ true
    → c.vm.bounds_check_enabled ≡ true
    → IsPlaced c
    → IsOutside c a
    → addr < 2 ^ 64
    → size ≤ 8
    → k < size
    → u64 (addr + k) ≢ a
unfolding bounds_check
checked_byte c a addr size k h on p o w z l e = ground arith

size_bytes-le : (z : Size) → size_bytes z ≤ 8
unfolding size_bytes
size_bytes-le size_w = omega arith
size_bytes-le _ = omega arith

store_outcome-next :
    (c : Context) (cur : ℕ) (inst : Inst) (m m' : State) (z : Size) (x : ℕ)
    → store_outcome c cur inst m z x ≡ next m'
    → (bounds_check c (address inst inst.dst m) (size_bytes z) ≡ true)
      × (m'.memory ≡ store (size_bytes z) (address inst inst.dst m) x m.memory)
unfolding store_outcome
store_outcome-next c cur inst m m' z x h = ground arith

call_outcome-next :
    (m m' : State) (f : Option ExtFunc)
    → call_outcome m f ≡ next m'
    → (fn : ExtFunc) × (f ≡ some fn)
      × (m'.memory ≡ (fn.apply (m.reg 1) (m.reg 2) (m.reg 3) (m.reg 4) (m.reg 5) m.memory).1)
unfolding call_outcome
call_outcome-next m m' none h = cc
call_outcome-next m m' (some fn) h = (fn, refl, ground arith)

module _ (c : Context) (a : ℕ) (on : c.vm.bounds_check_enabled ≡ true) (placed : IsPlaced c)
    (outside : IsOutside c a) (calls : CallsKeep c.vm a) where
  store_outcome-frame :
      (cur : ℕ) (inst : Inst) (m m' : State) (z : Size) (x : ℕ)
      → store_outcome c cur inst m z x ≡ next m'
      → m'.memory a ≡ m.memory a
  store_outcome-frame cur inst m m' z x h =
      let addr = address inst inst.dst m in
      let (passed, written) = store_outcome-next c cur inst m m' z x h in
      rw written (
        store_frame (size_bytes z) addr x m.memory a
          (λ k l.
            checked_byte c a addr (size_bytes z) k passed on placed outside (omega arith)
              (size_bytes-le z) l)
          (omega arith))

  call_outcome-frame :
      (i : ℕ) (m m' : State)
      → call_outcome m (c.vm.ext_funcs i) ≡ next m'
      → m'.memory a ≡ m.memory a
  call_outcome-frame i m m' h =
      let (fn, at, written) = call_outcome-next m m' (c.vm.ext_funcs i) h in
      rw written (calls i fn at (m.reg 1) (m.reg 2) (m.reg 3) (m.reg 4) (m.reg 5) m.memory)

  exec_opcode-frame :
      (cur : ℕ) (inst : Inst) (m m' : State) (o : Option Opcode)
      → exec_opcode c cur inst m o ≡ next m'
      → m'.memory a ≡ m.memory a
  unfolding exec_opcode
  exec_opcode-frame cur inst m m' none h = ground arith
  exec_opcode-frame cur inst m m' (some call) h = call_outcome-frame inst.imm m m' h
  exec_opcode-frame cur inst m m' (some (st z)) h = store_outcome-frame cur inst m m' z _ h
  exec_opcode-frame cur inst m m' (some (stx z)) h = store_outcome-frame cur inst m m' z _ h
  exec_opcode-frame cur inst m m' (some o) h = ground arith

  fetched-frame :
      (m m' : State) (o : Option Inst) → fetched c m o ≡ next m' → m'.memory a ≡ m.memory a
  unfolding fetched
  fetched-frame m m' none h = cc
  fetched-frame m m' (some inst) h =
      exec_opcode-frame m.pc inst (record m { pc = u16 (m.pc + 1) }) m' (decode inst.opcode) h

  -- With the bounds check on, a round keeps every byte outside the context and the stack.
  pub step-frame : (m m' : State) → step c m ≡ next m' → m'.memory a ≡ m.memory a
  unfolding step
  step-frame m m' h = fetched-frame m m' (get_elem? c.code m.pc) h
