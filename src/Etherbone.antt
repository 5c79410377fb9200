-- ===== src/Etherbone.antt =====
-- tools/wishbone-utils/libeb-c/etherbone.c: the packets, and reads and writes over a connection.
pub mod Laws
pub mod Connect
pub mod Resources
mod Tests
use ve_bpf.Base.{
  ℕ, ◌+◌, ◌-◌, ◌^◌, Bool, true, false, Option, none, some, List, [], ◌∷◌, ◌++◌, length, ◌==◌,
  if◌then◌else◌, get_elem?,
}
use mathlib.Core.List.{reverse}
use ve_bpf.Ebpf.Encoding.{to_bytes, of_bytes}

-- The four bytes of `htobe32` in memory.
unfoldable pub be_bytes : ℕ → List ℕ
unfolding to_bytes
be_bytes x = reverse (to_bytes 4 x)

abbrev pub byte_at : List ℕ → ℕ → ℕ
byte_at buffer i = elim (get_elem? buffer i) [ none ↦ 0 | some b ↦ b ]

-- `be32toh` of the four bytes at offset 16, as an `int` pattern.
unfoldable pub eb_unfill_read32 : List ℕ → ℕ
unfolding of_bytes
eb_unfill_read32 wb_buffer =
    of_bytes (
      byte_at wb_buffer 19
      ∷ byte_at wb_buffer 18
      ∷ byte_at wb_buffer 17
      ∷ byte_at wb_buffer 16
      ∷ [])

-- The bytes that `eb_fill_readwrite32` leaves in the buffer, whose length it returns.
unfoldable pub eb_fill_readwrite32 : ℕ → ℕ → Bool → List ℕ
unfolding be_bytes
eb_fill_readwrite32 word address is_read =
    let header = 0x4e ∷ 0x6f ∷ 0x10 ∷ 0x44 ∷ 0 ∷ 0 ∷ 0 ∷ 0 ∷ 0 ∷ 0x0f ∷ [] in
    if is_read
    then header ++ 0 ∷ 1 ∷ 0 ∷ 0 ∷ 0 ∷ 0 ∷ be_bytes address
    else header ++ 1 ∷ 0 ∷ be_bytes address ++ be_bytes word

unfoldable pub eb_fill_write32 : ℕ → ℕ → List ℕ
unfolding eb_fill_readwrite32
eb_fill_write32 word address = eb_fill_readwrite32 word address false

unfoldable pub eb_fill_read32 : ℕ → List ℕ
unfolding eb_fill_readwrite32
eb_fill_read32 address = eb_fill_readwrite32 0 address true

-- The socket: what `eb_send` and `eb_recv` call. A receive gives the bytes it got, at most the number
-- asked for, or none on an error.
pub record Socket (S : Type 0) : Type 0 where
  pub send : List ℕ → S → S
  pub recv : ℕ → S → Option (List ℕ) × S

module _ {S : Type 0} (socket : Socket S) where
  -- The result of `eb_send` is not looked at.
  unfoldable pub eb_write32 : ℕ → ℕ → S → S
  unfolding eb_fill_write32
  eb_write32 val addr s = socket.send (eb_fill_write32 val addr) s

  -- The value that is returned for what was received: -1 as `uint32_t` if it is not 20 bytes.
  abbrev pub received : Option (List ℕ) → ℕ
  received none = 2 ^ 32 - 1
  received (some bytes) = if length bytes == 20 then eb_unfill_read32 bytes else 2 ^ 32 - 1

  unfoldable pub eb_read32 : ℕ → S → ℕ × S
  unfolding eb_fill_read32
  eb_read32 addr s =
      let (bytes, s') = socket.recv 20 (socket.send (eb_fill_read32 addr) s) in (received bytes, s')
