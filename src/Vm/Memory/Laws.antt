-- ===== src/Vm/Memory/Laws.antt =====
-- About loads and stores of several bytes in `ubpf_exec` (tools/ubpf/vm/ubpf_vm.c).
use native.Mathlib.Nat.{pow-suc, one-le-pow}
use ve_bpf.Base.{ℕ, zero, suc, ◌+◌, ◌/◌, ◌%◌, ◌^◌, ◌<◌, ◌≤◌, ◌≡◌, refl, ◌≢◌, arith}
use ve_bpf.Base.Word.{u64}
use ve_bpf.Vm.Memory.{Memory, update, load, store}
use ve_bpf.Ebpf.Encoding.RoundTrip.{mod_digit}

-- A store changes no byte but those it addresses.
pub store_frame :
    (n addr x : ℕ) (m : Memory) (a : ℕ)
    → ((k : ℕ) → k < n → u64 (addr + k) ≢ a)
    → addr < 2 ^ 64
    → store n addr x m a ≡ m a
unfolding store
store_frame zero addr x m a h w = refl
store_frame (suc n) addr x m a h w =
    let rest =
      store_frame n (u64 (addr + 1)) (x / 256) m a (λ k l e. h (suc k) (omega arith) (omega arith))
        (omega arith) in
    ground (arith, h 0)

pub load_congr :
    (n addr : ℕ) (f g : Memory)
    → ((k : ℕ) → k < n → f (u64 (addr + k)) ≡ g (u64 (addr + k)))
    → addr < 2 ^ 64
    → load n addr f ≡ load n addr g
unfolding load
load_congr zero addr f g h w = refl
load_congr (suc n) addr f g h w =
    let zeroth : u64 (addr + 0) ≡ addr = omega arith in
    let here = rw zeroth at (h 0 (omega arith)) in
    let rest = load_congr n (u64 (addr + 1)) f g (λ k l. later k l) (omega arith) in
    omega (arith, here, rest)
  where
    later : (k : ℕ) → k < n → f (u64 (u64 (addr + 1) + k)) ≡ g (u64 (u64 (addr + 1) + k))
    later k l =
        let same : u64 (addr + suc k) ≡ u64 (u64 (addr + 1) + k) = omega arith in
        rw same at (h (suc k) (omega arith))

-- A load of at most 8 bytes at a 64-bit address reads back the low bytes that a store of the
-- same width has written there.
pub load-store :
    (n addr x : ℕ) (m : Memory)
    → n ≤ 8
    → addr < 2 ^ 64
    → load n addr (store n addr x m) ≡ x % 256 ^ n
unfolding load store
load-store zero addr x m h w = omega arith
load-store (suc n) addr x m h w =
    let rest = store n (u64 (addr + 1)) (x / 256) m in
    let kept : load n (u64 (addr + 1)) (update rest addr (x % 256)) ≡ load n (u64 (addr + 1)) rest =
      load_congr n (u64 (addr + 1)) (update rest addr (x % 256)) rest (λ k l. ground arith)
        (omega arith) in
    let inner = load-store n (u64 (addr + 1)) (x / 256) m (omega arith) (omega arith) in
    ground
      (arith, kept, inner, mod_digit x (256 ^ n) (one-le-pow n 256 (omega arith)), pow-suc 256 n)

pub load-lt : (n addr : ℕ) (m : Memory) → ((a : ℕ) → m a < 256) → load n addr m < 256 ^ n
unfolding load
load-lt zero addr m h = omega arith
load-lt (suc n) addr m h = omega (arith, h addr, load-lt n (u64 (addr + 1)) m h, pow-suc 256 n)

-- A store writes bytes.
pub store_bytes :
    (n addr x : ℕ) (m : Memory) (a : ℕ) → ((j : ℕ) → m j < 256) → store n addr x m a < 256
unfolding store
store_bytes zero addr x m a h = h a
store_bytes (suc n) addr x m a h = ground (arith, store_bytes n (u64 (addr + 1)) (x / 256) m a h)
