-- ===== src/Vm/Exec/Stored.antt =====
-- About a store and a load at the same address in `ubpf_exec` (tools/ubpf/vm/ubpf_vm.c).
use ve_bpf.Base.{ℕ, ◌%◌, ◌^◌, ◌≤◌, ◌≡◌, refl, ap, sym, ◌∙◌, true, arith, some}
use ve_bpf.Ebpf.{Inst}
use ve_bpf.Ebpf.Opcode.{Size, size_w, size_h, size_b, size_dw, ldx, stx}
use ve_bpf.Vm.Memory.{update, load, store}
use ve_bpf.Vm.Memory.Laws.{load-store}
use ve_bpf.Vm.Exec.{
  Context, State, next, bounds_check, size_bytes, address, set_dst, store_outcome, load_outcome,
  exec_opcode,
}

-- The width that the name of the macro says.
abbrev pub width : Size → ℕ
width size_b = 8
width size_h = 16
width size_w = 32
width size_dw = 64

bytes_of_bits : (z : Size) → 256 ^ size_bytes z ≡ 2 ^ width z
unfolding size_bytes
bytes_of_bits size_b = refl
bytes_of_bits size_h = refl
bytes_of_bits size_w = refl
bytes_of_bits size_dw = refl

update_self : (f : ℕ → ℕ) (i v : ℕ) → update f i v i ≡ v
update_self f i v = ground arith

size_bytes-le : (z : Size) → size_bytes z ≤ 8
unfolding size_bytes
size_bytes-le z = ground arith

module _ (c : Context) (z : Size) where
  store_outcome-next :
      (cur : ℕ) (inst : Inst) (m m' : State) (x : ℕ)
      → store_outcome c cur inst m z x ≡ next m'
      → (bounds_check c (address inst inst.dst m) (size_bytes z) ≡ true)
        × (c.is_accessible (address inst inst.dst m) (size_bytes z) ≡ true)
        × (record m { memory = store (size_bytes z) (address inst inst.dst m) x m.memory } ≡ m')
  unfolding store_outcome
  store_outcome-next cur inst m m' x h = (ground arith, ground arith, ground arith)

  load_outcome-next :
      (cur : ℕ) (inst : Inst) (m : State)
      → bounds_check c (address inst inst.src m) (size_bytes z) ≡ true
      → c.is_accessible (address inst inst.src m) (size_bytes z) ≡ true
      → load_outcome c cur inst m z
        ≡ next (set_dst inst m (load (size_bytes z) (address inst inst.src m) m.memory))
  unfolding load_outcome
  load_outcome-next cur inst m p q = rw (p, q) refl

  -- After a round that stores a register by `EBPF_OP_STX…`, a load by `EBPF_OP_LDX…` of the same
  -- width through the same register and offset passes the check and is defined, and leaves in its
  -- destination the low bits, as many as the macro's name says, of the register that was stored.
  pub stx-ldx :
      (cur cur' : ℕ) (first second : Inst) (m m' : State)
      → second.src ≡ first.dst
      → second.offset ≡ first.offset
      → exec_opcode c cur first m (some (stx z)) ≡ next m'
      → (m'' : State) × (exec_opcode c cur' second m' (some (ldx z)) ≡ next m'')
        × (m''.reg second.dst ≡ m.reg first.src % 2 ^ width z)
  unfolding exec_opcode
  stx-ldx cur cur' first second m m' s o h =
      let n = size_bytes z in
      let at = address first first.dst m in
      let x = m.reg first.src in
      let (passed, allowed, stored) = store_outcome-next cur first m m' x h in
      let same_reg : m'.reg ≡ m.reg = ap (λ (t : State). t.reg) (sym stored) in
      let here : address second second.src m' ≡ at = rw (s, o, same_reg) refl in
      let memory : m'.memory ≡ store n at x m.memory = ap (λ (t : State). t.memory) (sym stored) in
      let back = load-store n at x m.memory (size_bytes-le z) (omega arith) in
      let loads = load_outcome-next cur' second m' (rw here passed) (rw here allowed) in
      (
        set_dst second m' (load n (address second second.src m') m'.memory),
        loads,
        update_self m'.reg second.dst _ ∙ rw (here, memory, ← bytes_of_bits z) back,
      )
