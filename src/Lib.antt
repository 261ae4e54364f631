-- ===== src/Lib.antt =====
-- A model of the crate iocp (https://github.com/udoprog/aiocp): overlapped I/O of Windows on a
-- completion port, as futures. Paths below are from the repository's root.
--
-- A task polls an operation on a handle. The poll takes a permit of the port, registers the task's
-- waker, and locks the header that the handle shares with the system (src/task.rs). On an open lock
-- it issues the system call, and leaves the lock, the permit and a count of the header to the
-- operation in flight. The background thread (src/background.rs) dequeues the completion, gives the
-- permit and the count back, marks the lock as completed and, unless the operation was aborted,
-- wakes the task, whose next poll collects the result.
--
-- Which file models what:
-- - Prelude, Prelude/: Boolean tests, lists, bits and integers over the native numbers.
-- - Io: src/io.rs and src/errors.rs, and the result types `Outcome` and `Poll`. A panic is a result.
-- - Os: what the crate calls and does not implement: Windows, the wakers, the memory of vectors.
--   `W` is the state of all that; each call is a field of a record that the definitions take.
-- - Task, Task/: src/task.rs. `Header.lock` is the `AtomicI64`; `header_lock`, `unlock` and
--   `unlock_to_open` are the methods. A weak exchange that fails by itself is an argument.
-- - Shared: the state that tasks and the thread share: the world, the port's interior, the headers
--   by address. The strong count of an `Arc<Header>` is a field of the header.
-- - Port, Port/: src/completion_port.rs. `pending` is the bit pattern of an `AtomicIsize`, with the
--   wrap-around of 64 bits written out. `debug_assert!` is left out, as in a release build.
-- - Pool, Pool/: src/pool/buffer_pool.rs and src/pool/socket_pool.rs.
-- - Kernel: what Windows owes, as laws of `Os`: which calls are queued, one packet for each, and
--   shutdowns that carry no header; and of the calls of Winsock, of which only an accept is queued.
-- - Handle, Handle/: src/handle.rs (Defs: the handle and the monad; Guard: `lock` and `LockGuard`;
--   Poll: the polls; Futures: the futures of a handle and its async traits), src/handle/ext.rs
--   (Ext) and src/handle/operation.rs (Operation). The others prove: Frames, Locking and Balance
--   the balance of permits and counts, Books and Accounts the same against what the system owes,
--   Cursor `advance`, Answers and Reading the results of a poll, Kinds whose result it is, Ending
--   the end of a guard, Streams and Writing how a future and an async trait compare.
-- - Handle/Register and Socket/Register: the creation of a port and the registration of handles and
--   sockets, of src/completion_port.rs.
-- - Socket, Socket/: src/socket.rs (Defs, Guard, Poll, Own), src/socket/ext.rs and
--   src/socket/operation.rs (Accept). Poll uses the handle's definitions where the source repeats
--   its text; Own has those methods on the fields of the socket, and Lifted compares the two. The
--   others prove: Entry and Submission the first poll of an accept, Reuse the second, Frames and
--   Balance the balance of permits and counts, Books the same against what the system owes,
--   Connection and Placed where the header of a connection is, Accounts all of that together,
--   Answers and Liveness how a poll of an accept ends, Ready the pool of sockets in any order of
--   polls and packets.
-- - Background, Background/: src/background.rs; Queue states what a completion port does in order,
--   Loops takes the two loops a round at a time, Termination and Drain follow the thread to its
--   end, Life and Liveness one operation through poll and thread, Posting the packets that the
--   program posts itself, Tally the first loop against a count of packets, Waking who is woken.
--   Race has the atomic steps of a poll's lock and of the thread's release on one header, in any
--   interleaving.
-- - System, System/: many handles and sockets on one port (`System`), a step relation of
--   registrations, polls, accepts, drops, thread and system in any order (`Step`, `Reach`), its
--   invariant, and what holds in every state reached; Creation, Connections and Accepts take the
--   steps that make a handle or a socket; Start has the state in which a port has just been
--   created. System/Closing goes on from the shutdown: the rounds of the thread's second loop among
--   the steps of tasks (`CloseStep`, `CloseReach`), the loops of the thread as such steps (Body),
--   and a guard that is alive at the shutdown (Guarded).
-- - Pipe, Pipe/: src/pipe.rs, the builder of named pipes and its flags.
-- - Tests/: a small system, and each theorem applied on it.
--
-- In System a poll, a drop and the handling of a packet are one step each: between the calls of one
-- step nothing else runs. A refusal of a permit, an addition to the
-- counter and a subtraction in the source, is one step there, and two in Port/Permit.
-- Background/Race takes the lock of a poll and
-- the release of the thread apart, and Guarded a poll at the point where it holds its guard. The
-- steps of System ask for room below the sign bit of the counter, and the step of an accept for a
-- number and an address that are free, should it make a connection. Fuel is used for the two loops
-- of the thread: `run` is given one unit for each packet up to the shutdown, and
-- `poll_during_shutdown` one for each repeated shutdown and one more; the theorems on the thread
-- ask for no more than that. Sizes in bytes are unbounded, except where the source cuts or checks
-- them.
--
-- Not modelled: the spawning of the thread; src/atomic_waker.rs (a copy of tokio's, taken as the
-- calls `register_waker` and `wake`); src/ioctl.rs, src/flags.rs, src/arc_handle.rs, `Debug`,
-- `AsRef` and `AsMut` implementations, logging, and the examples; the drop of the raw handle or
-- socket, a type parameter of the source, with the handle, the socket or the connection that has it.
pub mod Prelude
pub mod Io
pub mod Os
pub mod Task
pub mod Shared
pub mod Port
pub mod Kernel
pub mod Pool
pub mod Handle
pub mod Background
pub mod Pipe
pub mod Socket
pub mod System
pub mod Tests
