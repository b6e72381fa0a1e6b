-- ===== src/Socket/Valid.antt =====
-- The ring and the counter of each socket stay valid under the system calls of src/socket.c.
use kfs.Prelude.{
  ℕ, ◌-◌, ◌≢◌, Bool, Option, none, some, List, arith, ℤ, to_int, Option-cases, inl, inr, All,
  All-set, All-modify, All-modify_at, List-cases, All-get_or, take,
}
use kfs.Socket.{
  Socket, Sockets, Address, listening, free_socket, socket_alloc, socket_get_by_fd,
  socket_find_by_address, at_index, change, put,
}
use kfs.Socket.Setup.{created, socket_create, socket_bind, socket_listen, bind_at, listen_at}
use kfs.Socket.Transfer.{
  queue_front, dequeue, clipped, enqueue, deliver, hang_up, disconnect_peer, connect_client,
  server_socket, accept_at, connect_at, connect_from, send_at, recv_at, socket_accept,
  socket_connect, socket_send, socket_recv, socket_close,
}
use kfs.Socket.Calls.{
  Call, socket, bind, listen, accept, connect, send, recv, close, dispatch, after_accept,
  after_recv,
}
use kfs.Socket.Queue.{IsValid, enqueue-IsValid, dequeue-IsValid, deliver-IsValid, free-IsValid}

abbrev pub AllValid : Sockets → Type 0
AllValid st = All IsValid st.table

at-IsValid : (st : Sockets) (i : ℕ) → AllValid st → IsValid (at_index st i)
at-IsValid st i v = All-get_or IsValid st.table i free_socket v free-IsValid

keep :
    (f : Socket → Socket) (st : Sockets) (i : ℕ)
    → AllValid st
    → ((s : Socket) → IsValid s → IsValid (f s))
    → AllValid (change st i f)
keep f st i v k = All-modify IsValid f st.table i v k

-- An update of slot `i` alone, at the socket that stands there.
keep_at :
    (f : Socket → Socket) (st : Sockets) (i : ℕ)
    → AllValid st
    → IsValid (f (at_index st i))
    → AllValid (change st i f)
keep_at f st i v k = All-modify_at IsValid f st.table i free_socket v k

create-AllValid :
    (st : Sockets) (pid : ℕ) (family kind : ℤ)
    → AllValid st
    → AllValid (socket_create st pid family kind).1
unfolding socket_create
create-AllValid st pid family kind v = elim (Option-cases (socket_alloc st)) [
  | inl e ↦ ground (arith, e)
  | inr (i, e) ↦ ground (
    arith,
    e,
    All-set IsValid st.table i (created pid family kind st.next_sockfd) v (omega arith),
  )
]

bind_at-AllValid : (st : Sockets) (i : ℕ) (a : Address) → AllValid st → AllValid (bind_at st i a).1
unfolding bind_at
bind_at-AllValid st i a v =
    ground (arith, keep (λ s. record s { local_addr = a }) st i v (λ s w. omega arith))

listen_at-AllValid : (st : Sockets) (i : ℕ) → AllValid st → AllValid (listen_at st i).1
unfolding listen_at
listen_at-AllValid st i v = ground (
  arith,
  keep
      (λ s. record s {
        state = listening;
        accept_queue_head = 0;
        accept_queue_tail = 0;
        accept_queue_count = 0;
      })
      st i v (λ s w. omega arith),
)

accept_at-AllValid :
    (st : Sockets) (i : ℕ) → AllValid st → AllValid (after_accept st (accept_at st i)).1
unfolding accept_at
accept_at-AllValid st i v = elim (Option-cases (queue_front (at_index st i))) [
  | inl e ↦ ground (arith, e)
  | inr (c, e) ↦ ground (
    arith,
    e,
    λ (h : (at_index st i).accept_queue_count ≢ 0).
        keep_at dequeue st i v (dequeue-IsValid (at_index st i) (at-IsValid st i v) h),
  )
]

connect_at-AllValid :
    (st : Sockets) (i l n : ℕ) (a : Address) → AllValid st → AllValid (connect_at st i l n a)
unfolding connect_at
connect_at-AllValid st i l n a v =
    keep (enqueue n) (change (put st n server) i (connect_client n a)) l
      (keep (connect_client n a) (put st n server) i
        (All-set IsValid st.table n server v (omega arith)) (λ s w. omega arith))
      (enqueue-IsValid n)
  where
    server : Socket
    server = server_socket (at_index st l) (at_index st i) i st.next_sockfd

connect_from-AllValid :
    (st : Sockets) (i : ℕ) (a : Address) → AllValid st → AllValid (connect_from st i a).1
unfolding connect_from
connect_from-AllValid st i a v = elim (Option-cases (socket_find_by_address st a)) [
  | inl e ↦ rw (e, connect_from) v
  | inr (l, e) ↦ elim (Option-cases (socket_alloc st)) [
    | inl f ↦ rw (e, f, connect_from) v
    | inr (n, f) ↦ rw (e, f, connect_from) (connect_at-AllValid st i l n a v)
  ]
]

send_at-AllValid :
    (st : Sockets) (i : ℕ) (buf : List ℕ) (len : ℕ) (memory : Bool)
    → AllValid st
    → AllValid (send_at st i buf len memory).1
unfolding send_at
send_at-AllValid st i buf len memory v = elim (Option-cases (at_index st i).peer) [
  | inl e ↦ ground (arith, e)
  | inr (p, e) ↦ ground (
    arith,
    e,
    keep
        (deliver (record {
          bytes = take (clipped len) buf;
          size = clipped len;
          src_addr = (at_index st i).local_addr;
        }))
        st p v (deliver-IsValid _),
  )
]

recv_at-AllValid :
    (st : Sockets) (i len : ℕ) → AllValid st → AllValid (after_recv (recv_at st i len)).1
unfolding recv_at
recv_at-AllValid st i len v = elim (List-cases (at_index st i).msg_queue) [
  | inl e ↦ ground (arith, e)
  | inr (m, rest, e) ↦ ground (
    arith,
    e,
    keep_at (λ s. record s { msg_queue = rest; msg_count = s.msg_count - 1 }) st i v
        (ground (arith, e, at-IsValid st i v)),
  )
]

close-AllValid : (st : Sockets) (fd : ℤ) → AllValid st → AllValid (socket_close st fd).1
unfolding socket_close
close-AllValid st fd v = elim (Option-cases (socket_get_by_fd st fd)) [
  | inl e ↦ rw (e, socket_close) v
  | inr (i, e) ↦
      rw (e, socket_close)
        (All-set IsValid _ i free_socket (peer_gone (at_index st i).peer) free-IsValid)
]
  where
    peer_gone : (o : Option ℕ) → AllValid (disconnect_peer st o)
    peer_gone none = v
    peer_gone (some p) = keep hang_up st p v (λ s w. omega arith)

bind-AllValid :
    (st : Sockets) (fd : ℤ) (a : Option Address) → AllValid st → AllValid (socket_bind st fd a).1
unfolding socket_bind
bind-AllValid st fd none v = v
bind-AllValid st fd (some a) v = elim (Option-cases (socket_get_by_fd st fd)) [
  | inl e ↦ rw (e, socket_bind) v
  | inr (i, e) ↦ rw (e, socket_bind) (bind_at-AllValid st i a v)
]

listen-AllValid : (st : Sockets) (fd : ℤ) → AllValid st → AllValid (socket_listen st fd).1
unfolding socket_listen
listen-AllValid st fd v = elim (Option-cases (socket_get_by_fd st fd)) [
  | inl e ↦ rw (e, socket_listen) v
  | inr (i, e) ↦ rw (e, socket_listen) (listen_at-AllValid st i v)
]

accept-AllValid :
    (st : Sockets) (fd : ℤ) → AllValid st → AllValid (after_accept st (socket_accept st fd)).1
unfolding socket_accept
accept-AllValid st fd v = elim (Option-cases (socket_get_by_fd st fd)) [
  | inl e ↦ rw (e, socket_accept) v
  | inr (i, e) ↦ rw (e, socket_accept) (accept_at-AllValid st i v)
]

connect-AllValid :
    (st : Sockets) (fd : ℤ) (a : Option Address) → AllValid st → AllValid (socket_connect st fd a).1
unfolding socket_connect
connect-AllValid st fd none v = v
connect-AllValid st fd (some a) v = elim (Option-cases (socket_get_by_fd st fd)) [
  | inl e ↦ rw (e, socket_connect) v
  | inr (i, e) ↦ rw (e, socket_connect) (connect_from-AllValid st i a v)
]

send-AllValid :
    (st : Sockets) (fd : ℤ) (buf : Option (List ℕ)) (len : ℕ) (memory : Bool)
    → AllValid st
    → AllValid (socket_send st fd buf len memory).1
unfolding socket_send
send-AllValid st fd none len memory v = v
send-AllValid st fd (some buf) len memory v = elim (Option-cases (socket_get_by_fd st fd)) [
  | inl e ↦ rw (e, socket_send) v
  | inr (i, e) ↦ rw (e, socket_send) (ground (arith, send_at-AllValid st i buf len memory v))
]

recv-AllValid :
    (st : Sockets) (fd : ℤ) (has_buf : Bool) (len : ℕ)
    → AllValid st
    → AllValid (after_recv (socket_recv st fd has_buf len)).1
unfolding socket_recv
recv-AllValid st fd has_buf len v = elim (Option-cases (socket_get_by_fd st fd)) [
  | inl e ↦ rw (e, socket_recv) v
  | inr (i, e) ↦ rw (e, socket_recv) (ground (arith, recv_at-AllValid st i len v))
]

-- On any table of valid sockets, not only a reachable one, every system call with any arguments
-- keeps every socket valid: the ring indices of `accept_queue` stay in range and consistent, at most
-- 16 connections wait, and `msg_count` is the length of the message queue.
pub dispatch-AllValid : (st : Sockets) (c : Call) → AllValid st → AllValid (dispatch st c).1
unfolding dispatch
dispatch-AllValid st (socket none family kind) v = v
dispatch-AllValid st (socket (some pid) family kind) v =
    create-AllValid st pid (to_int family) (to_int kind) v
dispatch-AllValid st (bind fd a) v = bind-AllValid st (to_int fd) a v
dispatch-AllValid st (listen fd) v = listen-AllValid st (to_int fd) v
dispatch-AllValid st (accept fd) v = accept-AllValid st (to_int fd) v
dispatch-AllValid st (connect fd a) v = connect-AllValid st (to_int fd) a v
dispatch-AllValid st (send fd buf len memory) v = send-AllValid st (to_int fd) buf len memory v
dispatch-AllValid st (recv fd has_buf len) v = recv-AllValid st (to_int fd) has_buf len v
dispatch-AllValid st (close fd) v = close-AllValid st (to_int fd) v
