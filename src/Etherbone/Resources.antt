-- ===== src/Etherbone/Resources.antt =====
-- About what `eb_connect` and `eb_disconnect` (tools/wishbone-utils/libeb-c/etherbone.c) acquire
-- and release.
use ve_bpf.Base.{
  ℕ, ◌≡◌, ◌≢◌, ◌↔◌, refl, Bool, true, false, Option, none, some, List, [], ◌∷◌, ◌++◌, ◌==◌, arith,
}
use ve_bpf.Base.Held.{Event, held_after}
use ve_bpf.Etherbone.Connect.{
  Resource, connection_memory, address_list, descriptor, Replies, connect_tx, then_events,
  connect_direct, connect_stream, eb_connect, eb_disconnect,
}

abbrev pub same : Resource → Resource → Bool
same connection_memory connection_memory = true
same address_list address_list = true
same (descriptor a) (descriptor b) = a == b
same _ _ = false

-- The events of a connection that is made and, if there is one, ended.
abbrev pub session : Bool → Replies → List (Event Resource)
session is_direct r = let (conn, events) = eb_connect is_direct r in events ++ eb_disconnect conn

direct_session :
    (r : Replies) (first : Option ℕ)
    → first ≢ some 0
    → let (conn, events) = connect_direct r first in
      held_after same (address_list ∷ connection_memory ∷ []) (events ++ eb_disconnect conn)
      ≡ some []
unfolding connect_direct then_events connect_tx eb_disconnect
direct_session r none h = refl
direct_session r (some fd) h = ground arith

-- Whatever the calls return, after `eb_connect`, and `eb_disconnect` if there is a connection, nothing
-- is held and nothing was released that was not held, if the receiving socket of a direct connection is
-- not descriptor 0 and `malloc` leaves 0 in the `read_fd` of another one.
pub session-released :
    (is_direct : Bool) (r : Replies)
    → (is_direct ≡ true → r.first_socket ≢ some 0)
    → (is_direct ≡ false → r.uninitialised ≡ 0)
    → held_after same [] (session is_direct r) ≡ some []
unfolding eb_connect then_events connect_stream eb_disconnect
session-released true r h k = ground (arith, direct_session r r.first_socket (h refl))
session-released false r h k = ground arith

-- A connection that is not direct and has been made is ended with the release of a descriptor that is
-- not its own exactly when `malloc` has left another number than 0 in `read_fd`.
pub stream_session-foreign :
    (r : Replies) (sock : ℕ)
    → r.allocated ≡ true
    → r.resolved ≡ true
    → r.first_socket ≡ some sock
    → r.connected ≡ true
    → (held_after same [] (session false r) ≡ none) ↔ (r.uninitialised ≢ 0)
unfolding eb_connect connect_stream then_events eb_disconnect
stream_session-foreign r sock a b c d = ground arith
