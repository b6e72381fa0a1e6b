-- ===== src/Socket/Setup.antt =====
-- `socket_create`, `socket_bind` and `socket_listen` of src/socket.c.
use kfs.Prelude.{
  ℕ, ◌+◌, ◌&&◌, not, Option, none, some, ◌==◌, if◌then◌else◌, is_some, ℤ, pos, minus_one, ◌=ℤ=◌,
  set,
}
use kfs.Socket.{
  Socket, Sockets, closed, listening, Address, socket_type_stream, socket_type_dgram,
  socket_af_unix, zero_socket, socket_alloc, socket_get_by_fd, socket_find_by_address, at_index,
  change,
}

-- `socket_create` stores the state SOCKET_STATE_CLOSED in the new socket.
abbrev pub created : ℕ → ℤ → ℤ → ℕ → Socket
created pid family kind fd = record zero_socket {
  fd = pos fd;
  state = closed;
  kind = kind;
  family = family;
  owner_pid = pid;
  refcount = 1;
}

unfoldable pub socket_create : Sockets → ℕ → ℤ → ℤ → ℤ × Sockets
socket_create st pid family kind =
    if not (family =ℤ= socket_af_unix)
    then (minus_one, st)
    else if not (kind =ℤ= socket_type_stream) && not (kind =ℤ= socket_type_dgram)
    then (minus_one, st)
    else elim (socket_alloc st) [
      | none ↦ (minus_one, st)
      | some i ↦ (
        pos st.next_sockfd,
        record {
          table = set st.table i (created pid family kind st.next_sockfd);
          next_sockfd = st.next_sockfd + 1;
        },
      )
    ]

unfoldable pub bind_at : Sockets → ℕ → Address → ℤ × Sockets
bind_at st i a =
    if not ((at_index st i).local_addr.port == 0)
    then (minus_one, st)
    else if is_some (socket_find_by_address st a)
    then (minus_one, st)
    else (pos 0, change st i (λ s. record s { local_addr = a }))

unfoldable pub socket_bind : Sockets → ℤ → Option Address → ℤ × Sockets
unfolding bind_at
socket_bind st fd none = (minus_one, st)
socket_bind st fd (some a) = elim (socket_get_by_fd st fd) [
  | none ↦ (minus_one, st)
  | some i ↦ bind_at st i a
]

unfoldable pub listen_at : Sockets → ℕ → ℤ × Sockets
listen_at st i =
    if not ((at_index st i).kind =ℤ= socket_type_stream)
    then (minus_one, st)
    else if (at_index st i).local_addr.port == 0
    then (minus_one, st)
    else (
      pos 0,
      change st i (λ s. record s {
        state = listening;
        accept_queue_head = 0;
        accept_queue_tail = 0;
        accept_queue_count = 0;
      }),
    )

unfoldable pub socket_listen : Sockets → ℤ → ℤ × Sockets
unfolding listen_at
socket_listen st fd = elim (socket_get_by_fd st fd) [
  | none ↦ (minus_one, st)
  | some i ↦ listen_at st i
]
