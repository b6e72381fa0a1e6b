-- ===== src/Socket/Calls.antt =====
-- The socket system calls as one step function, for histories of calls.
use kfs.Prelude.{ℕ, Bool, Option, none, some, List, [], ◌∷◌, ℤ, minus_one, to_int}
use kfs.Socket.{Sockets, Address}
use kfs.Socket.Setup.{socket_create, socket_bind, socket_listen}
use kfs.Socket.Transfer.{
  AcceptResult, socket_accept, socket_connect, socket_send, socket_recv, socket_close,
}

-- A system call with its arguments. The process behind a `socket` call is the current one, `none`
-- if there is none; descriptors and enumerations arrive as `uint32_t` and are cast to `int`.
pub data Call : Type 0 where
  socket : (current : Option ℕ) (family kind : ℕ) → Call
  bind : ℕ → Option Address → Call
  listen : ℕ → Call
  accept : ℕ → Call
  connect : ℕ → Option Address → Call
  send : ℕ → Option (List ℕ) → ℕ → Bool → Call
  recv : ℕ → Bool → ℕ → Call
  close : ℕ → Call

abbrev pub sys_socket : Sockets → Option ℕ → ℕ → ℕ → ℤ × Sockets
sys_socket st none family kind = (minus_one, st)
sys_socket st (some pid) family kind = socket_create st pid (to_int family) (to_int kind)

-- What the caller and the table see of an accept; a read through NULL counts as one that fails.
abbrev pub after_accept : Sockets → AcceptResult → ℤ × Sockets
after_accept st none = (minus_one, st)
after_accept st (some (fd, from, st')) = (fd, st')

abbrev pub after_recv : ℤ × List ℕ × Sockets → ℤ × Sockets
after_recv (n, bytes, st) = (n, st)

-- The value in EAX and the table after a call.
unfoldable pub dispatch : Sockets → Call → ℤ × Sockets
dispatch st (socket current family kind) = sys_socket st current family kind
dispatch st (bind fd a) = socket_bind st (to_int fd) a
dispatch st (listen fd) = socket_listen st (to_int fd)
dispatch st (accept fd) = after_accept st (socket_accept st (to_int fd))
dispatch st (connect fd a) = socket_connect st (to_int fd) a
dispatch st (send fd buf len memory) = socket_send st (to_int fd) buf len memory
dispatch st (recv fd has_buf len) = after_recv (socket_recv st (to_int fd) has_buf len)
dispatch st (close fd) = socket_close st (to_int fd)

unfoldable pub run : Sockets → List Call → Sockets
run st [] = st
run st (c ∷ cs) = run (dispatch st c).1 cs
