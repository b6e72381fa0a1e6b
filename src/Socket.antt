-- ===== src/Socket.antt =====
-- The socket table and its operations, src/socket.c with include/socket.h.
--
-- `socket_table` is the list `table`; a pointer into it is an index, and NULL is `none`. The linked
-- list of messages of a socket is a list, oldest first. C's `int` descriptors are integers. What
-- `kmalloc` answers to `socket_send` is an argument. Printing is left out.
pub mod Setup
pub mod Transfer
pub mod Calls
mod Dead
mod Queue
mod Valid
mod Tests
use kfs.Prelude.{
  ℕ, ◌+◌, ◌-◌, ◌%◌, ◌≡◌, Bool, true, false, ◌&&◌, ◌||◌, not, Option, none, some, List, [], ◌∷◌,
  ◌++◌, ltb, ◌==◌, if◌then◌else◌, is_some, ℤ, pos, minus_one, ◌=ℤ=◌, to_int, length, get_or, set,
  modify, take, replicate, find_index,
}

abbrev pub max_sockets : ℕ
max_sockets = 256

abbrev pub socket_msg_size : ℕ
socket_msg_size = 4096

-- Slots of `accept_queue`.
abbrev pub backlog_size : ℕ
backlog_size = 16

pub data SocketState : Type 0 where
  closed listening connected connecting : SocketState

abbrev pub is_closed : SocketState → Bool
is_closed closed = true
is_closed s = false

abbrev pub is_listening : SocketState → Bool
is_listening listening = true
is_listening s = false

abbrev pub is_connected : SocketState → Bool
is_connected connected = true
is_connected s = false

abbrev pub socket_type_stream : ℤ
socket_type_stream = pos 1

abbrev pub socket_type_dgram : ℤ
socket_type_dgram = pos 2

abbrev pub socket_af_unix : ℤ
socket_af_unix = pos 1

pub record Address : Type 0 where
  pub family : ℤ
  pub pid : ℕ
  pub port : ℕ

pub record Message : Type 0 where
  pub bytes : List ℕ
  pub size : ℕ
  pub src_addr : Address

pub record Socket : Type 0 where
  pub fd : ℤ
  pub state : SocketState
  pub kind : ℤ
  pub family : ℤ
  pub owner_pid : ℕ
  pub local_addr : Address
  pub remote_addr : Address
  pub accept_queue : List (Option ℕ)
  pub accept_queue_head : ℕ
  pub accept_queue_tail : ℕ
  pub accept_queue_count : ℕ
  pub msg_queue : List Message
  pub msg_count : ℕ
  pub peer : Option ℕ
  pub refcount : ℕ

pub record Sockets : Type 0 where
  pub table : List Socket
  pub next_sockfd : ℕ

-- What `memset` with 0 leaves.
abbrev pub zero_address : Address
zero_address = record { family = pos 0; pid = 0; port = 0 }

abbrev pub zero_socket : Socket
zero_socket = record {
  fd = pos 0;
  state = closed;
  kind = pos 0;
  family = pos 0;
  owner_pid = 0;
  local_addr = zero_address;
  remote_addr = zero_address;
  accept_queue = replicate 16 none;
  accept_queue_head = 0;
  accept_queue_tail = 0;
  accept_queue_count = 0;
  msg_queue = [];
  msg_count = 0;
  peer = none;
  refcount = 0;
}

-- A slot as `socket_init` and `socket_close` leave it.
abbrev pub free_socket : Socket
free_socket = record zero_socket { fd = minus_one }

pub socket_init : Sockets
socket_init = record { table = replicate max_sockets free_socket; next_sockfd = 1 }

abbrev pub is_free : Socket → Bool
is_free s = is_closed s.state && (s.fd =ℤ= minus_one)

abbrev pub has_fd : ℤ → Socket → Bool
has_fd fd s = (s.fd =ℤ= fd) && not (is_closed s.state)

abbrev pub listens_at : Address → Socket → Bool
listens_at a s =
    is_listening s.state
    && ((s.local_addr.family =ℤ= a.family)
        && ((s.local_addr.pid == a.pid) && (s.local_addr.port == a.port)))

abbrev pub socket_alloc : Sockets → Option ℕ
socket_alloc st = find_index is_free st.table

abbrev pub socket_get_by_fd : Sockets → ℤ → Option ℕ
socket_get_by_fd st fd = find_index (has_fd fd) st.table

abbrev pub socket_find_by_address : Sockets → Address → Option ℕ
socket_find_by_address st a = find_index (listens_at a) st.table

-- `socket_table[i]`
abbrev pub at_index : Sockets → ℕ → Socket
at_index st i = get_or st.table i free_socket

abbrev pub put : Sockets → ℕ → Socket → Sockets
put st i s = record st { table = set st.table i s }

abbrev pub change : Sockets → ℕ → (Socket → Socket) → Sockets
change st i f = record st { table = modify f st.table i }
