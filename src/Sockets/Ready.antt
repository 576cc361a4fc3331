-- ===== src/Sockets/Ready.antt =====
-- A socket that create_socket gives back is ready for accept.
use pronto.Prelude.{
  ℕ, ◌*◌, ◌^◌, ◌%◌, ◌/◌, ◌≡◌, ◌⊎◌, refl, true, false, Option, none, some, ◌==◌, arith, Bool-cases,
  Option-cases, inl, inr, ==_iff,
}
use pronto.Sockets.{
  o_nonblock, with_nonblock, Fcntl, make_nonblocking, Socket, SocketCalls, listening, create_on,
  create_socket,
}

-- `new` has O_NONBLOCK, and else the bits of `old`.
abbrev pub IsNonblocking : (old new : ℕ) → Type 0
IsNonblocking old new =
    (new / o_nonblock % 2 ≡ 1)
    × (new % o_nonblock ≡ old % o_nonblock)
    × (new / (2 * o_nonblock) ≡ old / (2 * o_nonblock))

with_nonblock-IsNonblocking : (flags : ℕ) → IsNonblocking flags (with_nonblock flags)
unfolding with_nonblock
with_nonblock-IsNonblocking flags = elim (Bool-cases (flags / o_nonblock % 2 == 1)) [
  | inl e ↦ rw (e) ((==_iff (flags / o_nonblock % 2) 1).0 e, refl, refl)
  | inr e ↦ rw (e) (ground arith, ground arith, ground arith)
]

-- One of the calls that end the program failed.
abbrev pub HasFailed : SocketCalls → Type 0
HasFailed calls =
    (calls.socket ≡ none)
    ⊎ (calls.setsockopt ≡ false)
    ⊎ (calls.bind ≡ false)
    ⊎ (calls.listen ≡ false)
    ⊎ (calls.fcntl.flags ≡ none)
    ⊎ (calls.fcntl.settable ≡ false)

-- The socket `s` listens on `port` and does not block.
abbrev pub IsListening : SocketCalls → ℕ → Socket → Type 0
IsListening calls port s =
    (old : ℕ) × (calls.fcntl.flags ≡ some old)
    × IsNonblocking old s.flags
    × (s.reuses_address ≡ true)
    × (s.port ≡ port % 2 ^ 16)
    × (s.backlog ≡ 128)

make_nonblocking_lem :
    (calls : Fcntl)
    → ((make_nonblocking calls ≡ none) × ((calls.flags ≡ none) ⊎ (calls.settable ≡ false)))
      ⊎ ((old new : ℕ) × (make_nonblocking calls ≡ some new)
          × (calls.flags ≡ some old)
          × (calls.settable ≡ true)
          × IsNonblocking old new)
unfolding make_nonblocking
make_nonblocking_lem calls = elim (Option-cases calls.flags) [
  | inl e ↦ inl (rw (e) refl, inl e)
  | inr (old, e) ↦ elim (Bool-cases calls.settable) [
    | inl f ↦ inr (old, with_nonblock old, rw (e, f) refl, e, f, with_nonblock-IsNonblocking old)
    | inr f ↦ inl (rw (e, f) refl, inr f)
  ]
]

-- All of them went well, with the socket `fd`.
abbrev pub HasSucceeded : SocketCalls → ℕ → Type 0
HasSucceeded calls fd =
    (calls.socket ≡ some fd)
    × (calls.setsockopt ≡ true)
    × (calls.bind ≡ true)
    × (calls.listen ≡ true)
    × (calls.fcntl.settable ≡ true)

module _ (calls : SocketCalls) (port : ℕ) where
  -- Either of the ways that create_socket goes, from the socket on.
  abbrev Ends : ℕ → Option (ℕ × Socket) → Type 0
  Ends fd result =
      ((result ≡ none) × HasFailed calls)
      ⊎ ((s : Socket) × (result ≡ some (fd, s)) × HasSucceeded calls fd × IsListening calls port s)

  create_on-Ends : (fd : ℕ) → calls.socket ≡ some fd → Ends fd (create_on calls port fd)
  unfolding create_on
  create_on-Ends fd opened = elim (Bool-cases calls.setsockopt) [
    | inr a ↦ inl (rw (a) refl, inr (inl a))
    | inl a ↦ elim (Bool-cases calls.bind) [
      | inr b ↦ inl (rw (a, b) refl, inr (inr (inl b)))
      | inl b ↦ elim (Bool-cases calls.listen) [
        | inr c ↦ inl (rw (a, b, c) refl, inr (inr (inr (inl c))))
        | inl c ↦ elim (make_nonblocking_lem calls.fcntl) [
          | inl (e, failed) ↦ inl (rw (a, b, c, e) refl, inr (inr (inr (inr failed))))
          | inr (old, new, e, at, ok, same) ↦ inr (
            listening port new,
            rw (a, b, c, e) refl,
            (opened, a, b, c, ok),
            (old, at, same, refl, refl, refl),
          )
        ]
      ]
    ]
  ]

-- create_socket ends the program if socket, setsockopt, bind, listen or a call of fcntl fails, and only
-- then. Else it gives back the descriptor of a socket that reuses addresses, listens on the port with
-- 128 places, and has O_NONBLOCK and otherwise the flags that it had.
pub create_socket_lem :
    (calls : SocketCalls) (port : ℕ)
    → ((create_socket calls port ≡ none) × HasFailed calls)
      ⊎ ((fd : ℕ) × (s : Socket) × (create_socket calls port ≡ some (fd, s))
          × HasSucceeded calls fd
          × IsListening calls port s)
unfolding create_socket
create_socket_lem calls port = elim (Option-cases calls.socket) [
  | inl e ↦ inl (rw (e) refl, inl e)
  | inr (fd, e) ↦ elim (create_on-Ends calls port fd e) [
    | inl (ran, failed) ↦ inl (rw (e) ran, failed)
    | inr (s, ran, well, on) ↦ inr (fd, s, rw (e) ran, well, on)
  ]
]
