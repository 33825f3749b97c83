-- ===== src/Lib.antt =====
-- The senders and receivers with which TCP congestion control is tried out on mininet: echo_client.cc
-- starts clients that send a fixed number of bytes each, echo_server.cc accepts them and logs what
-- arrives, and block_client.cc is a sender with a blocking socket.
--
-- The parts, and the files that model them:
--   base/min_heap.h: the intrusive heap of timed events. Heap holds the struct and its operations,
--     Heap/Order the heap order and the bag of elements, Heap/Up and Heap/Down the two sifts, Heap/Push
--     and Heap/Remove the operations, Heap/Memory the writes to deleted elements, Heap/Outside the
--     elements that are not in it. Heap/Queue is the abstract queue on a bag (Common/Bag) that the heap
--     stands for, and Heap/Refine relates the two.
--   tcp/network_thread.cc and tcp/task_queue.h: NetworkThread (posting, ProcessTasks, Clear) over the
--     heap, with Closure for the tasks. NetworkThread/Shared has the turns of the threads that post to
--     it, NetworkThread/Posting what one post does, NetworkThread/Places the places of a task, and
--     NetworkThread/Live a task that is due.
--   base/byte_codec.cc and base/byte_order.h: Codec (DataReader and DataWriter). Codec/Bytes has the
--     bytes of an integer, Codec/Views what a reader has left and a writer has written, Codec/RoundTrip
--     and Codec/Float16 the two codings, Codec/Failure the operations that fail, Codec/Typed the buffer
--     of a writer, Codec/Padding the integers of up to eight bytes, and Codec/Message fields in a row.
--   tcp/tcp_client.cc: Client (life cycle, reads, log) and Client/Send (the timer that sends).
--     Client/Write, Client/Header and Client/Progress follow the bytes, Client/Answers, Client/Live,
--     Client/Ahead and Client/Finish are about a timer that gets on, Client/Abort about one that does
--     not, Client/Quiet and Client/Deactive about the calls of Decrease, and Client/Kept about what the
--     operations leave alone.
--   tcp/tcp_peer.cc: Peer, with Peer/Counting, Peer/Reading and Peer/First for what it reads,
--     Peer/Speaking for what it writes, and Peer/Telling for what it tells the server. tcp/tcp_trace.cc:
--     Trace.
--   tcp/tcp_server.cc: Server, where a peer is a number, with Server/Peers for their owners.
--     Server/Hosted gives the peers their states, Server/Calls has what their calls change in the server,
--     Server/Made the peers it makes, and Server/Finished what the counter of the server counts.
--     Server/Main is the main of echo_server.cc.
--   base/proto_time.cc: Clock. base/lock.h: Lock. base/base_thread.cc: BaseThread.
--   echo_client.cc and echo_server.cc: Echo, with Echo/Program for the main loop over the states of a
--     program, of which Server/Main and Transfer/Experiment are the two. block_client.cc: Block and
--     Block/Main.
--   redis-main.cc: Redis, with Redis/Rounds and Redis/Reads for its reads. tcp_info.cc: CongestionType.
--   Transfer puts a client and a peer together. Transfer/Session is one run of the two to its end;
--     Transfer/System has their events as the steps of a relation, with Transfer/Sender,
--     Transfer/Receiver and Transfer/Invariant for the two sides and the whole, and Transfer/Safety for
--     the counter. Transfer/Experiment is the main of echo_client.cc with all its connections, which move
--     in any order; Transfer/Up is a connection that comes up,
--     Transfer/Course one that goes its whole course, Transfer/Able what it needs to, Transfer/Ending a run
--     of all of them, and Transfer/Both the server's counter at that time.
-- Common has the shared names, lists under native numbers, bags, the moduli of the machine integers and C's int;
-- Socket has what the kernel answers to read and write.
--
-- How the code is read: an object is a record with the source's fields, an operation is a function from
-- the state before to the state after. The kernel, the event loop, pthread, the allocator and the clock
-- are outside of the repository: their answers are arguments, and what the code asks of them is appended
-- to a list of effects. A failed CHECK aborts the process, which is the outcome `aborted`. Unsigned
-- integers wrap at their width; an int is an integer. Pointers to tasks and peers are numbers; a delete
-- is recorded, and the heap counts the writes to deleted elements.
--
-- Loops run on fuel where the code has no list to follow: the sifts take more rounds than the heap is
-- deep, ProcessTasks and Clear one round more than there are events, and the theorems on them show that
-- this is enough; the batch loop has one round per byte, and each round that goes on takes one at
-- least, so that it comes to its end under a kernel that takes something of every write. Reads and
-- writes follow the list of the kernel's answers, and where that is empty a write would block.
--
-- Not modelled: copies of other projects (butil, net, thirdparty, logging, callbacks, the Mersenne Twister,
-- QuicBandwidth), the parsing of command lines, the set-up of addresses, the Python scripts, TimeSleep,
-- a time less a duration, and the products of durations with a double. Where times overflow int64_t, which
-- is undefined, the model says nothing of the code. A first read of fewer than the header's eight bytes,
-- which the code takes for a whole header, is a step of the model, and the theorems on whole transfers
-- leave it out by a hypothesis (HasHeader). One turn of an event loop is any number of the events that the
-- model of its program knows, in any order.
pub mod Common
pub mod Heap
pub mod NetworkThread
pub mod Codec
pub mod Socket
pub mod Client
pub mod Peer
pub mod Redis
pub mod CongestionType
pub mod Server
pub mod Transfer
pub mod Echo
pub mod Clock
pub mod Trace
pub mod Block
pub mod Lock
pub mod Closure
pub mod BaseThread
