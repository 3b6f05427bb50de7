-- ===== src/Http/Listener.antt =====
-- aufg2_3_http/http_server/src/connection_listener.hpp and connection_listener.cpp, and how a
-- connection of connection_base/src/connection.cpp begins and ends. The outcomes of the system calls
-- are given.
pub mod Resources
pub mod Ownership
mod Examples
use rechnernetze.Base.{
  ℕ, Bool, true, false, List, [], ◌∷◌, Option, none, some, ℤ, ◌==◌, if◌then◌else◌,
}
use rechnernetze.Process.{
  Bytes, Result, ok, stop, ◌>>=◌, ◌>>◌, require, exited, exit_failure, thrown,
}
use rechnernetze.Http.Address.{
  Sockaddr, World, Block, new_block, allocated, release, Address, Lookup, of_host, of_sockaddr,
  destroy, get_sockaddr, get_any_address,
}

pub record ConnectionListener : Type 0 where
  pub file_descriptor : ℕ
  pub port : ℤ

-- The fields of a Connection.
pub record Endpoint : Type 0 where
  pub file_descriptor : ℕ
  pub address : Address

abbrev pub opened : ℕ → World → World
opened fd w = record w { open_files = fd ∷ w.open_files }

unfoldable pub without_file : ℕ → List ℕ → List ℕ
without_file fd [] = []
without_file fd (f ∷ files) =
    let rest = without_file fd files in if f == fd then files else f ∷ rest

abbrev pub close : ℕ → World → World
close fd w = record w { open_files = without_file fd w.open_files }

-- What `socket` gives, and whether `bind` and `listen` succeed.
pub record Setup : Type 0 where
  pub socket : Option ℕ
  pub binds : Bool
  pub listens : Bool

abbrev pub or_exit : Option ℕ → Result ℕ
or_exit none = stop (exited exit_failure)
or_exit (some fd) = ok fd

-- The constructor: the listener, with the address that it is bound to. `server_addr` goes out of
-- scope at its end.
unfoldable pub listen : Setup → ℤ → World → Result ((ConnectionListener × Sockaddr) × World)
listen setup port w = or_exit setup.socket >>= λ fd.
    let (server_addr, w') = get_any_address port (opened fd w) in
    require setup.binds (exited exit_failure)
    >> (require setup.listens (exited exit_failure)
        >> (destroy server_addr w' >>= λ w''.
            ok ((record { file_descriptor = fd; port = port }, get_sockaddr server_addr), w'')))

-- ~ConnectionListener
abbrev pub destroy_listener : ConnectionListener → World → World
destroy_listener listener w = close listener.file_descriptor w

-- What `accept` gives: a descriptor with the address of the peer, or -1, with errno EINVAL or another.
pub data Accept : Type 0 where
  peer : ℕ → Sockaddr → ℕ → Accept
  refused : Bool → Accept

-- A connection, a null pointer, or ListenerClosedException.
pub data Accepted : Type 0 where
  connection : Endpoint → Accepted
  no_connection : Accepted
  listener_closed : Accepted

abbrev pub after_refusal : Bool → Accepted
after_refusal true = listener_closed
after_refusal false = no_connection

-- Connection(address, file_descriptor)
abbrev pub connection_of : Address → ℕ → Endpoint
connection_of address fd = record { file_descriptor = fd; address = address }

unfoldable pub accept_next_connection : Accept → World → Result (Accepted × World)
accept_next_connection (peer fd sockaddr socklen) w =
    let w' = allocated new_block w in
    ok (connection (connection_of (of_sockaddr w.next sockaddr socklen) fd), opened fd w')
accept_next_connection (refused einval) w =
    let w' = allocated new_block w in
    release (new_block w.next) w' >>= λ w''. ok (after_refusal einval, w'')

-- Connection(host, port): a connection by a name, where `connect` may fail.
unfoldable pub connect :
    (Bytes → Lookup) → ℕ → Bool → Bytes → Option ℕ → World → Result (Endpoint × World)
connect getaddrinfo fd connects host port w = of_host getaddrinfo host port w >>= λ r.
    require connects thrown >> ok (record { file_descriptor = fd; address = r.0 }, opened fd r.1)

-- ~Connection, which is the last owner of its address.
unfoldable pub disconnect : Endpoint → World → Result World
disconnect c w = destroy c.address (close c.file_descriptor w)
