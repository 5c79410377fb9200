-- ===== src/Etherbone/Connect.antt =====
-- `eb_connect`, `eb_disconnect`, `eb_send` and `eb_recv` (tools/wishbone-utils/libeb-c/etherbone.c).
-- What the calls of the C library and the system return is an argument, and what the code acquires and
-- releases by them is a list of events; `close` of -1 has no effect.
use ve_bpf.Base.{ℕ, Bool, true, false, Option, none, some, List, [], ◌∷◌, ◌++◌, ◌==◌, if◌then◌else◌}
use ve_bpf.Base.Held.{Event, acquire, release, no_effect}
use ve_bpf.Etherbone.{Socket}

pub data Resource : Type 0 where
  connection_memory address_list : Resource
  descriptor : ℕ → Resource

-- `struct eb_connection`.
pub record Connection : Type 0 where
  pub is_direct : Bool
  pub fd : ℕ
  pub read_fd : ℕ

-- What the calls return: whether `malloc` and `getaddrinfo` succeed, the descriptors of the sockets,
-- with none for -1, whether `bind` or `connect` succeeds, and what `malloc` leaves in `read_fd`.
pub record Replies : Type 0 where
  pub allocated : Bool
  pub resolved : Bool
  pub first_socket : Option ℕ
  pub bound : Bool
  pub second_socket : Option ℕ
  pub connected : Bool
  pub uninitialised : ℕ

-- From the second socket of a direct connection on.
unfoldable pub connect_tx : Replies → ℕ → Option ℕ → Option Connection × List (Event Resource)
connect_tx r rx_socket none = (
  none,
  release (descriptor rx_socket)
      ∷ no_effect
      ∷ release address_list
      ∷ release connection_memory
      ∷ [],
)
connect_tx r rx_socket (some tx_socket) = (
  some (record { is_direct = true; fd = tx_socket; read_fd = rx_socket }),
  acquire (descriptor tx_socket) ∷ [],
)

unfoldable pub then_events :
    List (Event Resource)
    → Option Connection × List (Event Resource)
    → Option Connection × List (Event Resource)
then_events events (conn, more) = (conn, events ++ more)

-- From the first socket of a direct connection on.
unfoldable pub connect_direct : Replies → Option ℕ → Option Connection × List (Event Resource)
connect_direct r none = (none, release address_list ∷ release connection_memory ∷ [])
connect_direct r (some rx_socket) =
    if r.bound
    then then_events (acquire (descriptor rx_socket) ∷ []) (connect_tx r rx_socket r.second_socket)
    else (
      none,
      acquire (descriptor rx_socket)
          ∷ release (descriptor rx_socket)
          ∷ release address_list
          ∷ release connection_memory
          ∷ [],
    )

-- From the socket of another connection on; `read_fd` is not set.
unfoldable pub connect_stream : Replies → Option ℕ → Option Connection × List (Event Resource)
connect_stream r none = (none, release address_list ∷ release connection_memory ∷ [])
connect_stream r (some sock) =
    if r.connected
    then (
      some (record { is_direct = false; fd = sock; read_fd = r.uninitialised }),
      acquire (descriptor sock) ∷ [],
    )
    else (
      none,
      acquire (descriptor sock)
          ∷ release (descriptor sock)
          ∷ release address_list
          ∷ release connection_memory
          ∷ [],
    )

unfoldable pub eb_connect : Bool → Replies → Option Connection × List (Event Resource)
eb_connect is_direct r =
    if r.allocated
    then (if r.resolved
        then then_events (acquire connection_memory ∷ acquire address_list ∷ [])
            (if is_direct then connect_direct r r.first_socket else connect_stream r r.first_socket)
        else (none, acquire connection_memory ∷ release connection_memory ∷ []))
    else (none, [])

-- On a pointer that may be null. It is null afterwards.
unfoldable pub eb_disconnect : Option Connection → List (Event Resource)
eb_disconnect none = []
eb_disconnect (some conn) =
    release address_list
      ∷ release (descriptor conn.fd)
      ∷ (if conn.read_fd == 0 then [] else release (descriptor conn.read_fd) ∷ [])
    ++ release connection_memory ∷ []

-- The calls that `eb_send` and `eb_recv` make, on a descriptor.
pub record Calls (S : Type 0) : Type 0 where
  pub sendto : ℕ → List ℕ → S → S
  pub write : ℕ → List ℕ → S → S
  pub recvfrom : ℕ → ℕ → S → Option (List ℕ) × S
  pub read : ℕ → ℕ → S → Option (List ℕ) × S

module _ {S : Type 0} (calls : Calls S) (conn : Connection) where
  abbrev pub eb_send : List ℕ → S → S
  eb_send bytes = if conn.is_direct then calls.sendto conn.fd bytes else calls.write conn.fd bytes

  abbrev pub eb_recv : ℕ → S → Option (List ℕ) × S
  eb_recv max_len =
      if conn.is_direct then calls.recvfrom conn.read_fd max_len else calls.read conn.fd max_len

  -- The socket that `eb_write32` and `eb_read32` use.
  abbrev pub socket_of : Socket S
  socket_of = record { send = eb_send; recv = eb_recv }
