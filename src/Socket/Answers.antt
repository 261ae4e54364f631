-- ===== src/Socket/Answers.antt =====
-- What a poll of an accept answers while the port shuts down, and while an operation is in flight.
use aiocp.Prelude.{ℕ, ◌^◌, ◌<◌, ◌≤◌, ◌≡◌, ◌∙◌, refl, ap, some, Bool, le→ltb, lt→ltb}
use aiocp.Io.{Code, ok, err, pending, shutting_down}
use aiocp.Os.{Os, Memory}
use aiocp.Pool.SocketPool.{Winsock}
use aiocp.Task.Lock.{phase, submitted, header_lock-busy_mismatch}
use aiocp.Port.{CompletionStatus, poll_status, reserved_ports}
use aiocp.Background.{dispatch}
use aiocp.Background.Waking.{Settled, dispatch-Settled}
use aiocp.Handle.{own_header}
use aiocp.Handle.Guard.{locked}
use aiocp.Handle.Locking.{lock-granted, lock-refused}
use aiocp.Handle.Answers.{Cancelled, entered-Cancelled, refused-same}
use aiocp.Socket.Defs.{SocketCtx, ◌>>=◌, on_ctx}
use aiocp.Socket.Accept.{accept_code}
use aiocp.Socket.Poll.{running, after, guarded, poll_accept, poll}

module _ {W : Type 0} (os : Os W) (api : Winsock W) (m : Memory) where
  -- Once the port shuts down, so that its counter is negative, a poll of an accept that has not
  -- completed answers with that error, and changes nothing: no socket is taken or closed either.
  pub poll-shutting_down :
      (spurious : Bool) (waker address : ℕ) (c : SocketCtx W)
      → 2 ^ 63 ≤ c.ctx.shared.port.pending
      → c.ctx.shared.port.pending < 2 ^ 64
      → poll os api m spurious waker address running c ≡ (err shutting_down, running, c)
  unfolding poll poll_accept ◌>>=◌ on_ctx after
  poll-shutting_down spurious waker address c negative small =
      rw (lock-refused os spurious accept_code waker c.ctx (le→ltb _ _ negative))
        (ap (λ b. (err shutting_down, running, record c { ctx = b })) (refused-same c.ctx small))

  -- A poll of an accept while an operation is in flight stays pending and cancels that operation,
  -- also if it is an accept; the pool of sockets is left alone.
  pub poll-Cancelled :
      (spurious : Bool) (waker address : ℕ) (sent : Code) (c : SocketCtx W)
      → c.ctx.shared.port.pending < 2 ^ 63
      → phase (own_header c.ctx) ≡ submitted sent
      → let (r, s, c') = poll os api m spurious waker address running c in
        (r ≡ ok pending) × (c'.sockets ≡ c.sockets) × Cancelled os m waker c.ctx c'.ctx
  unfolding poll poll_accept ◌>>=◌ on_ctx after locked guarded
  poll-Cancelled spurious waker address sent c small e =
      rw (lock-granted os spurious accept_code waker c.ctx (lt→ltb _ _ small)) (
        rw (header_lock-busy_mismatch spurious accept_code sent (own_header c.ctx) e)
          (refl, refl, entered-Cancelled os m spurious waker accept_code sent c.ctx small e))

  -- A task that polls an accept while an operation is in flight on the listener, on a port that is
  -- up, stays pending behind it, with its waker registered and the one in flight cancelled, also if
  -- that is an accept itself. The thread then dequeues the packet of that one, under an ordinary
  -- key: the header is completed for whoever polls next, and the waker of the header is called if
  -- the operation completed or failed; if it was aborted, as the cancellation asks, nothing outside
  -- happens, so that the task is not woken.
  pub poll_accept-dispatch-Woken :
      (spurious : Bool) (waker rounds address : ℕ) (sent : Code) (st : CompletionStatus)
      (c : SocketCtx W)
      → c.ctx.shared.port.pending < 2 ^ 63
      → phase (own_header c.ctx) ≡ submitted sent
      → st.header ≡ some c.ctx.handle.header
      → st.completion_key < reserved_ports
      → let (r, _, c') = poll os api m spurious waker address running c in
        (r ≡ ok pending)
        × Cancelled os m waker c.ctx c'.ctx
        × Settled os st.outcome c.ctx.handle.header sent c'.ctx.shared.world
            (dispatch os rounds st (poll_status os st c'.ctx.shared).1)
  poll_accept-dispatch-Woken spurious waker rounds address sent st c small flying own o =
      let (answer, _, left) = poll-Cancelled spurious waker address sent c small flying in
      (
        answer,
        left,
        dispatch-Settled os rounds c.ctx.handle.header sent st _ own o
            (ap phase (left.heap c.ctx.handle.header) ∙ flying),
      )
