-- ===== src/Server.antt =====
-- tcp/tcp_server.h and tcp/tcp_server.cc: the accepting side, with its peers by descriptor.
-- A peer is named by the number of its construction; `deleted` are the peers that were destroyed,
-- oldest first, and `closed` the descriptors that the server closed. The timers that the event loop
-- was given are counted; `registered` says whether it took the event of the listening socket.
pub mod Peers
pub mod Hosted
pub mod Calls
pub mod Made
pub mod Finished
pub mod Main
mod Tests
use tcp_congestion_mininet.Common.{
  ℕ, zero, suc, ◌+◌, ◌%◌, Bool, true, false, Option, none, some, List, [], ◌∷◌, ◌++◌, ltb, leb,
  ◌==◌, if◌then◌else◌,
}
use tcp_congestion_mininet.Socket.{Outcome, ok, aborted}
use tcp_congestion_mininet.Trace.{TcpTrace, on_recv_data, open_trace_file}
use tcp_congestion_mininet.Common.Int.{ℤ, pos, negsuc, is_positive}

abbrev pub fd_setsize : ℕ
fd_setsize = 1024

pub record TcpServer : Type 0 where
  pub has_loop : Bool
  pub listenfd : ℕ
  pub peers : List (ℕ × ℕ)
  pub wait_for_delete : List ℕ
  pub deleted : List ℕ
  pub next_peer : ℕ
  pub timers : ℕ
  pub has_counter : Bool
  pub decreased : ℕ
  pub leaked : List ℕ
  pub registered : Bool
  pub closed : List ℕ
  pub tracer : Option TcpTrace

-- The constructor: the trace's file may fail to open.
unfoldable pub new_server : Bool → TcpServer
unfolding open_trace_file
new_server opens = record {
  has_loop = false;
  listenfd = 0;
  peers = [];
  wait_for_delete = [];
  deleted = [];
  next_peer = 0;
  timers = 0;
  has_counter = false;
  decreased = 0;
  leaked = [];
  registered = false;
  closed = [];
  tracer = some (open_trace_file opens);
}

abbrev pub register_counter : TcpServer → TcpServer
register_counter s = record s { has_counter = true }

-- anetTcpServer answers with a descriptor, or -1, which aborts the process; the event loop is made, and
-- takes the event of the socket, or not, after which the server goes on without it.
unfoldable pub create_socket : ℤ → Bool → TcpServer → Outcome TcpServer
create_socket (pos (suc fd)) registers s =
    ok (record s { listenfd = suc fd; has_loop = true; registered = registers })
create_socket _ registers s = aborted

pub find : ℕ → List (ℕ × ℕ) → Option ℕ
find fd [] = none
find fd ((k, p) ∷ m) = if k == fd then some p else find fd m

-- std::map::insert: a key that is there keeps its value.
pub insert : ℕ → ℕ → List (ℕ × ℕ) → List (ℕ × ℕ)
insert fd p [] = (fd, p) ∷ []
insert fd p ((k, q) ∷ m) = if k == fd then (k, q) ∷ m else (k, q) ∷ insert fd p m

pub erase : ℕ → List (ℕ × ℕ) → List (ℕ × ℕ)
erase fd [] = []
erase fd ((k, p) ∷ m) = if k == fd then m else (k, p) ∷ erase fd m

-- accept(2) answers; a peer that the map does not take is destroyed at once.
unfoldable pub accept : ℤ → TcpServer → TcpServer
accept (negsuc e) s = s
accept (pos fd) s =
    let p = s.next_peer in
    let taken : TcpServer = elim (find fd s.peers) [
      | none ↦ record s { peers = insert fd p s.peers; next_peer = suc p }
      | some q ↦ record s { deleted = s.deleted ++ p ∷ []; next_peer = suc p }
    ] in
    if ltb fd_setsize fd then record s { leaked = s.leaked ++ fd ∷ [] } else taken

unfoldable pub peer_close : ℕ → TcpServer → TcpServer
peer_close fd s = elim (find fd s.peers) [
  | none ↦ s
  | some p ↦ record s {
    wait_for_delete = s.wait_for_delete ++ p ∷ [];
    peers = erase fd s.peers;
    timers = suc s.timers;
  }
]

unfoldable pub on_peer_read_done_msg : TcpServer → TcpServer
on_peer_read_done_msg s = if s.has_counter then record s { decreased = suc s.decreased } else s

unfoldable pub delete_peer_list : TcpServer → TcpServer
delete_peer_list s = record s { deleted = s.deleted ++ s.wait_for_delete; wait_for_delete = [] }

-- DeletePeerTimer: its return value 0 asks for the timer to be called again after 0 milliseconds.
unfoldable pub delete_peer_timer : TcpServer → TcpServer × ℕ
delete_peer_timer s = (delete_peer_list s, 0)

unfoldable pub close : TcpServer → TcpServer
close s =
    if ltb 0 s.listenfd then record s { listenfd = 0; closed = s.closed ++ s.listenfd ∷ [] } else s

unfoldable pub on_trace_data : ℕ → ℕ → ℕ → TcpServer → TcpServer
on_trace_data id ts len s = elim s.tracer [
  | none ↦ s
  | some t ↦ record s { tracer = some (on_recv_data id ts len t) }
]
