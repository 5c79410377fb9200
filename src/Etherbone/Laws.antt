-- ===== src/Etherbone/Laws.antt =====
-- About the packets of tools/wishbone-utils/libeb-c/etherbone.c in the format that etherbone.h
-- describes, and reads and writes over a connection to a bus.
use ve_bpf.Base.{
  ℕ, ◌+◌, ◌*◌, ◌/◌, ◌%◌, ◌^◌, ◌<◌, ◌≡◌, ◌≢◌, refl, sym, ap, ◌∙◌, Bool, ◌&&◌, Option, none, some,
  List, length, ◌==◌, if◌then◌else◌, arith,
}
use ve_bpf.Ebpf.Encoding.{to_bytes, of_bytes}
use ve_bpf.Etherbone.{
  be_bytes, byte_at, eb_unfill_read32, eb_fill_readwrite32, eb_fill_write32, eb_fill_read32, Socket,
  eb_write32, received, eb_read32,
}

-- The one record of a packet, with 32-bit addresses and values.
pub data Request : Type 0 where
  write_request : ℕ → ℕ → Request
  read_request : ℕ → Request

-- The big-endian word at an offset.
abbrev pub word_at : List ℕ → ℕ → ℕ
word_at p i =
    ((byte_at p i * 256 + byte_at p (i + 1)) * 256 + byte_at p (i + 2)) * 256 + byte_at p (i + 3)

-- The magic, version 1, the sizes of address and port, and all bytes enabled.
abbrev pub header_ok : List ℕ → Bool
header_ok p =
    (length p == 20)
    && (byte_at p 0 == 0x4e)
    && (byte_at p 1 == 0x6f)
    && (byte_at p 2 == 0x10)
    && (byte_at p 3 == 0x44)
    && (byte_at p 9 == 0x0f)

-- The request in a packet: either `wcount` or `rcount` is 1.
unfoldable pub parse : List ℕ → Option Request
parse p =
    if header_ok p
    then (if (byte_at p 10 == 1) && (byte_at p 11 == 0)
        then some (write_request (word_at p 12) (word_at p 16))
        else (if (byte_at p 10 == 0) && (byte_at p 11 == 1)
            then some (read_request (word_at p 16))
            else none))
    else none

pub digits :
    (x : ℕ)
    → x < 2 ^ 32
    → ((x / 256 / 256 / 256 % 256 * 256 + x / 256 / 256 % 256) * 256 + x / 256 % 256) * 256
        + x % 256
      ≡ x
digits x h = omega arith

-- The packet of a write of 32-bit words parses as a write of that value to that address.
pub parse-eb_fill_write32 :
    (word address : ℕ)
    → word < 2 ^ 32
    → address < 2 ^ 32
    → parse (eb_fill_write32 word address) ≡ some (write_request address word)
unfolding parse eb_fill_write32 eb_fill_readwrite32 be_bytes to_bytes
parse-eb_fill_write32 word address p q = rw (digits address q, digits word p) refl

-- The packet of a read parses as a read of that 32-bit address.
pub parse-eb_fill_read32 :
    (address : ℕ) → address < 2 ^ 32 → parse (eb_fill_read32 address) ≡ some (read_request address)
unfolding parse eb_fill_read32 eb_fill_readwrite32 be_bytes to_bytes
parse-eb_fill_read32 address q = rw (digits address q) refl

-- A bus of 32-bit words behind the socket: a write packet sets a word; after a read packet, 20 bytes
-- are received that have the word at offset 16.
pub record IsBus {S : Type 0} (socket : Socket S) (view : S → ℕ → ℕ) : Type 0 where
  pub writes :
      (p : List ℕ) (s : S) (address x : ℕ)
      → parse p ≡ some (write_request address x)
      → x < 2 ^ 32
      → view (socket.send p s) address ≡ x
  pub keeps :
      (p : List ℕ) (s : S) (address x other : ℕ)
      → parse p ≡ some (write_request address x)
      → other ≢ address
      → view (socket.send p s) other ≡ view s other
  pub replies :
      (p : List ℕ) (s : S) (address : ℕ)
      → parse p ≡ some (read_request address)
      → (reply : List ℕ) × ((socket.recv 20 (socket.send p s)).0 ≡ some reply)
        × (length reply ≡ 20)
        × (word_at reply 16 ≡ view s address)

module _ {S : Type 0} (socket : Socket S) (view : S → ℕ → ℕ) (bus : IsBus socket view) where
  received-reply :
      (reply : List ℕ) → length reply ≡ 20 → received socket (some reply) ≡ word_at reply 16
  unfolding eb_unfill_read32 of_bytes
  received-reply reply h = ground arith

  read-view :
      (address : ℕ) (s : S) → address < 2 ^ 32 → (eb_read32 socket address s).0 ≡ view s address
  unfolding eb_read32
  read-view address s h =
      let (reply, got, full, word) =
        bus.replies (eb_fill_read32 address) s address (parse-eb_fill_read32 address h) in
      ap (received socket) got ∙ received-reply reply full ∙ word

  -- Over a socket with a bus of 32-bit words behind it, after a write `eb_read32` returns the word
  -- written at its address, and at another 32-bit address what it would have returned before.
  pub eb_read32-eb_write32 :
      (x address other : ℕ) (s : S)
      → x < 2 ^ 32
      → address < 2 ^ 32
      → other < 2 ^ 32
      → other ≢ address
      → ((eb_read32 socket address (eb_write32 socket x address s)).0 ≡ x)
        × ((eb_read32 socket other (eb_write32 socket x address s)).0
            ≡ (eb_read32 socket other s).0)
  unfolding eb_write32
  eb_read32-eb_write32 x address other s p q r ne =
      let packet = eb_fill_write32 x address in
      let parsed = parse-eb_fill_write32 x address p q in
      (
        read-view address (socket.send packet s) q ∙ bus.writes packet s address x parsed p,
        read-view other (socket.send packet s) r
            ∙ bus.keeps packet s address x other parsed ne
            ∙ sym (read-view other s r),
      )
