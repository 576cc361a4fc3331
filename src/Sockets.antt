-- ===== src/Sockets.antt =====
-- The listening socket and the flags of a descriptor: create_socket of srv/lib/server.c and
-- make_nonblocking of srv/lib/utils.c. What the system calls return is an input.
pub mod Ready
use pronto.Prelude.{
  ℕ, ◌+◌, ◌%◌, ◌/◌, ◌^◌, Bool, true, false, Option, none, some, ◌==◌, if◌then◌else◌,
}

-- O_NONBLOCK of Linux, one bit.
abbrev pub o_nonblock : ℕ
o_nonblock = 2 ^ 11

-- `flags | O_NONBLOCK`
unfoldable pub with_nonblock : ℕ → ℕ
with_nonblock flags = if flags / o_nonblock % 2 == 1 then flags else flags + o_nonblock

-- The two calls of fcntl: the flags, or `none` for -1, and whether they could be set.
pub record Fcntl : Type 0 where
  pub flags : Option ℕ
  pub settable : Bool

-- The flags that the descriptor has then; `none` is exit(-1).
unfoldable pub make_nonblocking : Fcntl → Option ℕ
unfolding with_nonblock
make_nonblocking calls = elim calls.flags [
  | none ↦ none
  | some flags ↦ if calls.settable then some (with_nonblock flags) else none
]

-- A TCP socket of IPv4 on every interface.
pub record Socket : Type 0 where
  pub reuses_address : Bool
  pub port : ℕ  -- unsigned, 16 bits
  pub backlog : ℕ
  pub flags : ℕ

-- What socket, setsockopt, bind and listen return, and the calls of fcntl.
pub record SocketCalls : Type 0 where
  pub socket : Option ℕ
  pub setsockopt : Bool
  pub bind : Bool
  pub listen : Bool
  pub fcntl : Fcntl

-- The socket after setsockopt, bind, listen and make_nonblocking.
abbrev pub listening : (port flags : ℕ) → Socket
listening port flags = record {
  reuses_address = true;
  port = port % 2 ^ 16;
  backlog = 128;
  flags = flags;
}

-- From the socket on: it is given back once it listens and does not block.
unfoldable pub create_on : SocketCalls → ℕ → ℕ → Option (ℕ × Socket)
unfolding make_nonblocking
create_on calls port fd =
    let ready : Option (ℕ × Socket) = elim (make_nonblocking calls.fcntl) [
      | none ↦ none
      | some flags ↦ some (fd, listening port flags)
    ] in
    if calls.setsockopt
    then (if calls.bind then (if calls.listen then ready else none) else none)
    else none

-- create_socket; `none` is exit(-1).
unfoldable pub create_socket : SocketCalls → ℕ → Option (ℕ × Socket)
unfolding create_on
create_socket calls port = elim calls.socket [ none ↦ none | some fd ↦ create_on calls port fd ]
