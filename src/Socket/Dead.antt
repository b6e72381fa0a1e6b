-- ===== src/Socket/Dead.antt =====
-- What the state SOCKET_STATE_CLOSED that `socket_create` stores does to the socket system.
use kfs.Prelude.{
  ℕ, ◌+◌, ◌≡◌, refl, true, false, Option, none, some, List, [], ◌∷◌, arith, ltb, if◌then◌else◌, ℤ,
  pos, minus_one, to_int, Option-cases, length, length-set, length-replicate, All, All-map, All-set,
  All-replicate, Found, find_index-Found, find_index-none, find_index-count_zero,
  find_index-count_pos, not, ◌&&◌, ◌=ℤ=◌, count, set, ◌∙◌, inl, inr, ◌⊎◌, count-set_drop,
}
use kfs.Socket.{
  Socket, Sockets, closed, free_socket, socket_init, is_free, has_fd, socket_alloc,
  socket_get_by_fd, max_sockets, socket_type_stream, socket_type_dgram, socket_af_unix,
}
use kfs.Socket.Setup.{created, socket_create, socket_bind, socket_listen}
use kfs.Socket.Transfer.{socket_accept, socket_connect, socket_send, socket_recv, socket_close}
use kfs.Socket.Calls.{Call, socket, bind, listen, accept, connect, send, recv, close, dispatch, run}

abbrev IsClosed : Socket → Type 0
IsClosed s = s.state ≡ closed

-- No socket is open, and every descriptor handed out took one free slot.
pub record Accounted (st : Sockets) : Type 0 where
  pub closed : All IsClosed st.table
  pub slots : length st.table ≡ max_sockets
  pub spent : count is_free st.table + st.next_sockfd ≡ max_sockets + 1

-- Not a `socket` call.
abbrev pub IsUse : Call → Type 0
IsUse (socket current family kind) = ⊥
IsUse c = Unit {0}

unfound : (st : Sockets) (fd : ℤ) → All IsClosed st.table → socket_get_by_fd st fd ≡ none
unfound st fd h =
    find_index-none (has_fd fd) st.table
      (All-map IsClosed (λ s. has_fd fd s ≡ false) (λ s e. ground arith) st.table h)

-- Every call but `socket` fails on a table of closed sockets and leaves it as it is.
use_fails :
    (st : Sockets) (c : Call) → All IsClosed st.table → IsUse c → dispatch st c ≡ (minus_one, st)
unfolding dispatch socket_bind socket_listen socket_accept socket_connect socket_send socket_recv
    socket_close
use_fails st (socket current family kind) h u = elim u [ ]
use_fails st (bind fd none) h u = refl
use_fails st (bind fd (some a)) h u = rw (unfound st (to_int fd) h, socket_bind)
use_fails st (listen fd) h u = rw (unfound st (to_int fd) h, socket_listen)
use_fails st (accept fd) h u = rw (unfound st (to_int fd) h, socket_accept)
use_fails st (connect fd none) h u = refl
use_fails st (connect fd (some a)) h u = rw (unfound st (to_int fd) h, socket_connect)
use_fails st (send fd none len memory) h u = refl
use_fails st (send fd (some buf) len memory) h u = rw (unfound st (to_int fd) h, socket_send)
use_fails st (recv fd has_buf len) h u = rw (unfound st (to_int fd) h, socket_recv)
use_fails st (close fd) h u = rw (unfound st (to_int fd) h, socket_close)

created-Accounted :
    (st : Sockets) (pid : ℕ) (family kind : ℤ) (i : ℕ)
    → Accounted st
    → socket_alloc st ≡ some i
    → Accounted (record {
      table = set st.table i (created pid family kind st.next_sockfd);
      next_sockfd = st.next_sockfd + 1;
    })
created-Accounted st pid family kind i v e = record {
  closed = All-set IsClosed st.table i (created pid family kind st.next_sockfd) v.closed refl;
  slots = length-set st.table i (created pid family kind st.next_sockfd) ∙ v.slots;
  spent = omega (arith, drop, v.spent);
}
  where
    f : Found is_free st.table i
    f = find_index-Found is_free st.table i e

    drop :
        count is_free (set st.table i (created pid family kind st.next_sockfd)) + 1
        ≡ count is_free st.table
    drop = count-set_drop is_free st.table i f.entry _ f.at f.passes refl

create-Accounted :
    (st : Sockets) (pid : ℕ) (family kind : ℤ)
    → Accounted st
    → Accounted (socket_create st pid family kind).1
unfolding socket_create
create-Accounted st pid family kind v = elim (Option-cases (socket_alloc st)) [
  | inl e ↦ ground (arith, e)
  | inr (i, e) ↦ ground (arith, e, created-Accounted st pid family kind i v e)
]

use-Accounted : (st : Sockets) (c : Call) → IsUse c → Accounted st → Accounted (dispatch st c).1
use-Accounted st c u v = rw (use_fails st c v.closed u) v

socket-Accounted :
    (st : Sockets) (current : Option ℕ) (family kind : ℕ)
    → Accounted st
    → Accounted (dispatch st (socket current family kind)).1
unfolding dispatch
socket-Accounted st none family kind v = v
socket-Accounted st (some pid) family kind v =
    create-Accounted st pid (to_int family) (to_int kind) v

dispatch-Accounted : (st : Sockets) (c : Call) → Accounted st → Accounted (dispatch st c).1
dispatch-Accounted st (socket current family kind) v = socket-Accounted st current family kind v
dispatch-Accounted st c v = use-Accounted st c tt v

run-Accounted : (st : Sockets) (cs : List Call) → Accounted st → Accounted (run st cs)
unfolding run
run-Accounted st [] v = v
run-Accounted st (c ∷ cs) v = run-Accounted (dispatch st c).1 cs (dispatch-Accounted st c v)

init-Accounted : Accounted socket_init
unfolding socket_init
init-Accounted = record {
  closed = All-replicate IsClosed max_sockets free_socket refl;
  slots = length-replicate max_sockets free_socket;
  spent = refl;
}

-- After any history of system calls from `socket_init` on, every bind, listen, accept, connect,
-- send, recv and close, with any arguments, returns -1 and leaves the table as it is.
pub use_fails-run :
    (cs : List Call) (c : Call)
    → IsUse c
    → dispatch (run socket_init cs) c ≡ (minus_one, run socket_init cs)
use_fails-run cs c u =
    use_fails (run socket_init cs) c (run-Accounted socket_init cs init-Accounted).closed u

-- Free slots and unused descriptors run out together.
alloc_cases :
    (st : Sockets)
    → Accounted st
    → ((socket_alloc st ≡ none) × (ltb st.next_sockfd 257 ≡ false))
      ⊎ ((i : ℕ) × (socket_alloc st ≡ some i) × (ltb st.next_sockfd 257 ≡ true))
alloc_cases st v = elim (Option-cases (socket_alloc st)) [
  | inl e ↦ inl (e, ground (arith, v.spent, find_index-count_zero is_free st.table e))
  | inr (i, e) ↦ inr (i, e, ground (arith, v.spent, find_index-count_pos is_free st.table i e))
]

kind_accepted :
    (kind : ℤ)
    → (kind ≡ socket_type_stream) ⊎ (kind ≡ socket_type_dgram)
    → (not (kind =ℤ= socket_type_stream) && not (kind =ℤ= socket_type_dgram)) ≡ false
kind_accepted kind (inl e) = rw e
kind_accepted kind (inr e) = rw e

-- What `socket_create` does to the descriptor counter on an accounted table.
create_lem :
    (st : Sockets) (pid : ℕ) (kind : ℤ)
    → Accounted st
    → (kind ≡ socket_type_stream) ⊎ (kind ≡ socket_type_dgram)
    → let (fd, st') = socket_create st pid socket_af_unix kind in
      (fd ≡ (if ltb st.next_sockfd 257 then pos st.next_sockfd else minus_one))
      × (st'.next_sockfd ≡ (if ltb st.next_sockfd 257 then st.next_sockfd + 1 else st.next_sockfd))
unfolding socket_create
create_lem st pid kind v k = elim (alloc_cases st v) [
  | inl (e, f) ↦ rw (kind_accepted kind k, e, f) (refl, refl)
  | inr (i, e, f) ↦ rw (kind_accepted kind k, e, f) (refl, refl)
]

-- After any history of system calls, `socket_create` for a Unix stream or datagram socket succeeds
-- exactly while `next_sockfd` is at most 256; it then returns `next_sockfd`, which goes up by one,
-- and else it returns -1 and changes nothing. No call gives a slot back.
create-exact :
    (cs : List Call) (pid : ℕ) (kind : ℤ)
    → (kind ≡ socket_type_stream) ⊎ (kind ≡ socket_type_dgram)
    → let st = run socket_init cs in
      let (fd, st') = socket_create st pid socket_af_unix kind in
      (fd ≡ (if ltb st.next_sockfd 257 then pos st.next_sockfd else minus_one))
      × (st'.next_sockfd ≡ (if ltb st.next_sockfd 257 then st.next_sockfd + 1 else st.next_sockfd))
create-exact cs pid kind k =
    create_lem (run socket_init cs) pid kind (run-Accounted socket_init cs init-Accounted) k
