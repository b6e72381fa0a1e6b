-- ===== src/Socket/Transfer.antt =====
-- `socket_accept`, `socket_connect`, `socket_send`, `socket_recv`, `socket_close` and the two readiness
-- tests of src/socket.c.
use kfs.Prelude.{
  ℕ, ◌+◌, ◌-◌, ◌%◌, Bool, ◌||◌, not, Option, none, some, List, [], ◌∷◌, ◌++◌, ltb, ◌==◌,
  if◌then◌else◌, ℤ, pos, minus_one, get_or, set, modify, take,
}
use kfs.Socket.{
  Socket, Sockets, closed, connected, Address, Message, socket_af_unix, is_listening, is_connected,
  zero_socket, free_socket, socket_alloc, socket_get_by_fd, socket_find_by_address, at_index,
  change, put, backlog_size, socket_msg_size,
}

-- The slot in `accept_queue` at the head, with NULL for a slot that is not there.
abbrev pub queue_front : Socket → Option ℕ
queue_front s = get_or s.accept_queue s.accept_queue_head none

abbrev pub dequeue : Socket → Socket
dequeue s = record s {
  accept_queue_head = (s.accept_queue_head + 1) % backlog_size;
  accept_queue_count = s.accept_queue_count - 1;
}

-- The descriptor of the connection and the address of its client, which the C writes if the caller's
-- pointer is not NULL. The outer `none` is the read through a NULL entry of the queue. The count is
-- not 0 where it is decremented.
abbrev pub AcceptResult : Type 0
AcceptResult = Option (ℤ × Option Address × Sockets)

unfoldable pub accept_at : Sockets → ℕ → AcceptResult
accept_at st i =
    if not (is_listening (at_index st i).state)
    then some (minus_one, none, st)
    else if (at_index st i).accept_queue_count == 0
    then some (minus_one, none, st)
    else elim (queue_front (at_index st i)) [
      | none ↦ none
      | some c ↦ some (
        (at_index (change st i dequeue) c).fd,
        some (at_index (change st i dequeue) c).remote_addr,
        change st i dequeue,
      )
    ]

unfoldable pub socket_accept : Sockets → ℤ → AcceptResult
unfolding accept_at
socket_accept st fd = elim (socket_get_by_fd st fd) [
  | none ↦ some (minus_one, none, st)
  | some i ↦ accept_at st i
]

-- The server side of a connection, from the listening socket `l` to the client `c` in slot `ci`.
abbrev pub server_socket : Socket → Socket → ℕ → ℕ → Socket
server_socket l c ci fd = record zero_socket {
  fd = pos fd;
  state = connected;
  kind = l.kind;
  family = l.family;
  owner_pid = l.owner_pid;
  local_addr = l.local_addr;
  remote_addr = record { family = socket_af_unix; pid = c.owner_pid; port = 0 };
  refcount = 1;
  peer = some ci;
}

abbrev pub connect_client : ℕ → Address → Socket → Socket
connect_client server a s = record s { peer = some server; state = connected; remote_addr = a }

-- The entry is added only while fewer than 16 wait.
abbrev pub enqueue : ℕ → Socket → Socket
enqueue server s =
    if ltb s.accept_queue_count backlog_size
    then record s {
      accept_queue = set s.accept_queue s.accept_queue_tail (some server);
      accept_queue_tail = (s.accept_queue_tail + 1) % backlog_size;
      accept_queue_count = s.accept_queue_count + 1;
    }
    else s

-- Client in slot `i`, listening socket in slot `l`, new socket in slot `n`.
unfoldable pub connect_at : Sockets → ℕ → ℕ → ℕ → Address → Sockets
connect_at st i l n a = record {
  table =
      modify (enqueue n)
        (modify (connect_client n a)
          (set st.table n (server_socket (at_index st l) (at_index st i) i st.next_sockfd)) i)
        l;
  next_sockfd = st.next_sockfd + 1;
}

unfoldable pub connect_from : Sockets → ℕ → Address → ℤ × Sockets
unfolding connect_at
connect_from st i a = elim (socket_find_by_address st a) [
  | none ↦ (minus_one, st)
  | some l ↦ elim (socket_alloc st) [
    | none ↦ (minus_one, st)
    | some n ↦ (pos 0, connect_at st i l n a)
  ]
]

unfoldable pub socket_connect : Sockets → ℤ → Option Address → ℤ × Sockets
unfolding connect_from
socket_connect st fd none = (minus_one, st)
socket_connect st fd (some a) = elim (socket_get_by_fd st fd) [
  | none ↦ (minus_one, st)
  | some i ↦ connect_from st i a
]

-- A message holds at most SOCKET_MSG_SIZE bytes.
abbrev pub clipped : ℕ → ℕ
clipped len = if ltb socket_msg_size len then socket_msg_size else len

abbrev pub deliver : Message → Socket → Socket
deliver m s = record s { msg_queue = s.msg_queue ++ (m ∷ []); msg_count = s.msg_count + 1 }

-- `memory` says whether `kmalloc` finds room for the message.
unfoldable pub send_at : Sockets → ℕ → List ℕ → ℕ → Bool → ℤ × Sockets
send_at st i buf len memory =
    if not (is_connected (at_index st i).state)
    then (minus_one, st)
    else elim (at_index st i).peer [
      | none ↦ (minus_one, st)
      | some p ↦
          if memory
          then (
            pos (clipped len),
            change st p (
                deliver (record {
                  bytes = take (clipped len) buf;
                  size = clipped len;
                  src_addr = (at_index st i).local_addr;
                })),
          )
          else (minus_one, st)
    ]

-- `none` is a NULL buffer; a buffer holds at least `len` bytes.
unfoldable pub socket_send : Sockets → ℤ → Option (List ℕ) → ℕ → Bool → ℤ × Sockets
unfolding send_at
socket_send st fd none len memory = (minus_one, st)
socket_send st fd (some buf) len memory = elim (socket_get_by_fd st fd) [
  | none ↦ (minus_one, st)
  | some i ↦ if len == 0 then (minus_one, st) else send_at st i buf len memory
]

-- The bytes that go into the caller's buffer. `msg_count` is the length of the queue
-- (`Queue`), so it is not 0 where it is decremented.
unfoldable pub recv_at : Sockets → ℕ → ℕ → ℤ × List ℕ × Sockets
recv_at st i len = elim (at_index st i).msg_queue [
  | [] ↦ (pos 0, [], st)
  | m ∷ rest ↦
      let copy_len = if ltb len m.size then len else m.size in
      (
        pos copy_len,
        take copy_len m.bytes,
        change st i (λ s. record s { msg_queue = rest; msg_count = s.msg_count - 1 }),
      )
]

-- `has_buf` is false for a NULL buffer.
unfoldable pub socket_recv : Sockets → ℤ → Bool → ℕ → ℤ × List ℕ × Sockets
unfolding recv_at
socket_recv st fd has_buf len = elim (socket_get_by_fd st fd) [
  | none ↦ (minus_one, [], st)
  | some i ↦ if not has_buf || (len == 0) then (minus_one, [], st) else recv_at st i len
]

abbrev pub hang_up : Socket → Socket
hang_up s = record s { peer = none; state = closed }

abbrev pub disconnect_peer : Sockets → Option ℕ → Sockets
disconnect_peer st none = st
disconnect_peer st (some p) = change st p hang_up

unfoldable pub socket_close : Sockets → ℤ → ℤ × Sockets
socket_close st fd = elim (socket_get_by_fd st fd) [
  | none ↦ (minus_one, st)
  | some i ↦ (pos 0, put (disconnect_peer st (at_index st i).peer) i free_socket)
]

unfoldable socket_can_read : Sockets → ℤ → ℤ
socket_can_read st fd = elim (socket_get_by_fd st fd) [
  | none ↦ pos 0
  | some i ↦ if ltb 0 (at_index st i).msg_count then pos 1 else pos 0
]

unfoldable socket_can_write : Sockets → ℤ → ℤ
socket_can_write st fd = elim (socket_get_by_fd st fd) [
  | none ↦ pos 0
  | some i ↦ if is_connected (at_index st i).state then pos 1 else pos 0
]
