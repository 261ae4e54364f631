-- ===== src/Socket/Submission.antt =====
-- The first poll of an accept: what it hands to the system.
use aiocp.Prelude.{ℕ, ◌^◌, ◌<◌, ◌≡◌, refl, false, List, ◌∷◌, arith}
use aiocp.Prelude.Int.{pos}
use aiocp.Io.{Outcome, ok, Poll, pending, handle_io_pending, error_io_pending}
use aiocp.Os.{Os, Memory, MemoryLaws, Call, failure}
use aiocp.Task.{header_lock}
use aiocp.Task.Lock.{phase, submitted}
use aiocp.Pool.BufferPool.Laws.{CanTake, granted}
use aiocp.Pool.SocketPool.{Winsock}
use aiocp.Handle.{own_header}
use aiocp.Socket.Defs.{Socket, SocketCtx}
use aiocp.Socket.Guard.{prepare, close, forget_or_drop, submit}
use aiocp.Socket.Accept.{accept_code, accept}
use aiocp.Socket.Poll.{State, running, after, poll}
use aiocp.Socket.Entry.{inside, poll_accept-open, prepare-first}

module _ {W : Type 0} (os : Os W) (api : Winsock W) (m : Memory) where
  -- The call that the system queues, after the waker is registered.
  abbrev pub queued : ℕ → ℕ → SocketCtx W → Call × W
  queued first waker c =
      api.accept_ex c.ctx.handle.raw first (granted 128 c.ctx.handle.pool) 16 16 c.ctx.handle.header
        (os.register_waker c.ctx.handle.header waker c.ctx.shared.world)

  -- An accept has been submitted, with that socket for the connection.
  pub record Submitted (first waker : ℕ) (c : SocketCtx W)
      (r : Outcome (Poll Socket) × State × SocketCtx W) : Type 0 where
    pub result : r.0 ≡ ok pending
    pub state : r.1 ≡ running
    pub world : r.2.ctx.shared.world ≡ (queued first waker c).1
    pub sockets : r.2.sockets ≡ record c.sockets { taken = 1 }
    pub lock : phase (own_header r.2.ctx) ≡ submitted accept_code

  entered_lock :
      (waker : ℕ) (c : SocketCtx W)
      → (own_header c.ctx).lock ≡ pos 0
      → phase (own_header (prepare (inside os api m waker c)).ctx) ≡ submitted accept_code
  unfolding prepare header_lock
  entered_lock waker c e = ground arith

  -- On a port that is up, its counter not negative, on an open lock whose exchange does not fail by
  -- itself, with memory as documented, room for the addresses in the pool of buffers, a socket in the
  -- list and none taken, and with `AcceptEx` answering `ERROR_IO_PENDING`: a poll of an accept has
  -- called it with the first socket of the list, however it came there, makes no new one, marks the
  -- lock as an accept in flight, and stays pending.
  pub poll-Submitted :
      (waker address first : ℕ) (others : List ℕ) (c : SocketCtx W)
      → MemoryLaws m
      → c.ctx.shared.port.pending < 2 ^ 63
      → (own_header c.ctx).lock ≡ pos 0
      → c.sockets.sockets ≡ first ∷ others
      → c.sockets.taken ≡ 0
      → CanTake (granted 128 c.ctx.handle.pool) c.ctx.handle.pool
      → (queued first waker c).0 ≡ failure error_io_pending
      → Submitted first waker c (poll os api m false waker address running c)
  unfolding poll after close submit accept forget_or_drop handle_io_pending prepare
  poll-Submitted waker address first others c laws small open_lock list none_taken can queues =
      rw (poll_accept-open os api m waker address c small open_lock) (
        rw
          (prepare-first os api m first others (prepare (inside os api m waker c)) laws list
            none_taken can)
          (rw queues (record {
            result = refl;
            state = refl;
            world = refl;
            sockets = refl;
            lock = entered_lock waker c open_lock;
          })))
