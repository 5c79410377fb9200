-- ===== src/Etherbone/Tests.antt =====
-- Packets of tools/wishbone-utils/libeb-c/etherbone.c, and a bus that answers them.
use ve_bpf.Base.{
  ℕ, ◌↔◌, ◌≢◌, true, false, [], ◌≡◌, refl, Option, none, some, List, ◌++◌, replicate, arith,
}
use ve_bpf.Base.Word.{u32}
use ve_bpf.Vm.Memory.{update}
use ve_bpf.Ebpf.Encoding.{to_bytes}
use ve_bpf.Etherbone.{Socket, be_bytes, eb_fill_write32, eb_fill_read32, eb_read32, eb_write32}
use ve_bpf.Etherbone.Laws.{
  Request, write_request, read_request, parse, digits, IsBus, parse-eb_fill_write32,
  parse-eb_fill_read32, eb_read32-eb_write32,
}
use ve_bpf.Etherbone.Connect.{Replies}
use ve_bpf.Base.Held.{held_after}
use ve_bpf.Etherbone.Resources.{session, same, session-released, stream_session-foreign}

-- The words of the bus, and the packet that waits to be received.
record Bus : Type 0 where
  words : ℕ → ℕ
  waiting : Option (List ℕ)

reply_with : ℕ → List ℕ
unfolding be_bytes
reply_with x = replicate 16 0 ++ be_bytes x

serve : Option Request → Bus → Bus
unfolding reply_with
serve none b = b
serve (some (write_request address x)) b = record b { words = update b.words address x }
serve (some (read_request address)) b = record b {
  waiting = some (reply_with (u32 (b.words address)));
}

abbrev bus : Socket Bus
bus = record { send = λ p b. serve (parse p) b; recv = λ n b. (b.waiting, b) }

abbrev word : Bus → ℕ → ℕ
word b address = u32 (b.words address)

bus-IsBus : IsBus bus word
unfolding serve reply_with be_bytes to_bytes
bus-IsBus = record {
  writes = λ p b address x e small. rw e (ground arith);
  keeps = λ p b address x other e ne. rw e (ground arith);
  replies = λ p b address e.
      (reply_with (word b address), rw e refl, refl, digits (word b address) (omega arith));
}

abbrev silent : Bus
silent = record { words = λ _. 7; waiting = none }

-- Witnesses.
parse-eb_fill_write32_example :
    parse (eb_fill_write32 0x12345678 0xe0004000) ≡ some (write_request 0xe0004000 0x12345678)
parse-eb_fill_write32_example =
    parse-eb_fill_write32 0x12345678 0xe0004000 (omega arith) (omega arith)

parse-eb_fill_read32_example : parse (eb_fill_read32 0xe0004000) ≡ some (read_request 0xe0004000)
parse-eb_fill_read32_example = parse-eb_fill_read32 0xe0004000 (omega arith)

eb_read32-eb_write32_example :
    ((eb_read32 bus 4 (eb_write32 bus 9 4 silent)).0 ≡ 9)
    × ((eb_read32 bus 8 (eb_write32 bus 9 4 silent)).0 ≡ (eb_read32 bus 8 silent).0)
eb_read32-eb_write32_example =
    eb_read32-eb_write32 bus word bus-IsBus 9 4 8 silent (omega arith) (omega arith) (omega arith)
      (λ e. omega arith)

-- A direct connection whose second socket fails, and one that is not direct on used memory.
abbrev replies : Replies
replies = record {
  allocated = true;
  resolved = true;
  first_socket = some 3;
  bound = true;
  second_socket = none;
  connected = true;
  uninitialised = 7;
}

session-released_example : held_after same [] (session true replies) ≡ some []
session-released_example = session-released true replies (λ _ e. absurd (cc)) (λ e. absurd (cc))

stream_session-foreign_example :
    (held_after same [] (session false replies) ≡ none) ↔ (replies.uninitialised ≢ 0)
stream_session-foreign_example = stream_session-foreign replies 3 refl refl refl refl
