-- ===== src/Vm/Memory.antt =====
-- The flat 64-bit address space that the loads and stores of `ubpf_exec` go through: a byte at each
-- address. A multi-byte access is little-endian, and addresses wrap at 2 ^ 64.
pub mod Laws
use ve_bpf.Base.{ℕ, zero, suc, ◌+◌, ◌*◌, ◌/◌, ◌%◌, ◌==◌, if◌then◌else◌}
use ve_bpf.Base.Word.{u64}

abbrev pub Memory : Type 0
Memory = ℕ → ℕ

-- A register file or a memory with one cell replaced.
abbrev pub update : (ℕ → ℕ) → ℕ → ℕ → ℕ → ℕ
update f i v j = if i == j then v else f j

-- `*(uintN_t *)addr`, for N = 8 * `n`.
unfoldable pub load : ℕ → ℕ → Memory → ℕ
load zero addr m = 0
load (suc n) addr m = m addr + 256 * load n (u64 (addr + 1)) m

-- `*(uintN_t *)addr = x`.
unfoldable pub store : ℕ → ℕ → ℕ → Memory → Memory
store zero addr x m = m
store (suc n) addr x m = update (store n (u64 (addr + 1)) (x / 256) m) addr (x % 256)
