-- ===== src/Socket/Tests.antt =====
-- Runs of the socket operations, and the theorems at concrete tables.
use kfs.Prelude.{◌≡◌, refl, some, List, [], ◌∷◌, arith, pos, minus_one}
use kfs.Socket.{
  Socket, Sockets, Address, listening, connected, free_socket, zero_socket, socket_init,
}
use kfs.Socket.Setup.{socket_create}
use kfs.Socket.Transfer.{socket_connect}
use kfs.Socket.Calls.{Call, socket, bind, listen, connect, close, dispatch, run}
use kfs.Socket.Dead.{use_fails-run}
use kfs.Socket.Queue.{IsValid}
use kfs.Socket.Valid.{AllValid, dispatch-AllValid}

abbrev address : Address
address = record { family = pos 1; pid = 7; port = 80 }

-- Descriptor 1 listens at port 80.
abbrev listener : Socket
listener = record zero_socket {
  fd = pos 1;
  state = listening;
  kind = pos 1;
  family = pos 1;
  owner_pid = 7;
  local_addr = address;
  refcount = 1;
}

-- Descriptor 2 is a socket of process 9.
abbrev client : Socket
client = record zero_socket {
  fd = pos 2;
  state = connected;
  kind = pos 1;
  family = pos 1;
  owner_pid = 9;
  refcount = 1;
}

abbrev small : Sockets
small = record { table = listener ∷ client ∷ free_socket ∷ []; next_sockfd = 3 }

abbrev history : List Call
history = socket (some 4) 1 1 ∷ bind 1 (some address) ∷ listen 1 ∷ close 1 ∷ []

created_first : (socket_create socket_init 4 (pos 1) (pos 1)).0 ≡ pos 1
unfolding socket_create socket_init
created_first = refl

connected_small : (socket_connect small (pos 2) (some address)).0 ≡ pos 0
unfolding socket_connect
connected_small = refl

use_fails-run_example :
    dispatch (run socket_init history) (bind 1 (some address))
    ≡ (minus_one, run socket_init history)
use_fails-run_example = use_fails-run history (bind 1 (some address)) tt

listener-IsValid : IsValid listener
listener-IsValid = omega arith

small-AllValid : AllValid small
small-AllValid = omega arith

dispatch-AllValid_example : AllValid (dispatch small (connect 2 (some address))).1
dispatch-AllValid_example = dispatch-AllValid small (connect 2 (some address)) small-AllValid
