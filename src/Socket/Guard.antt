-- ===== src/Socket/Guard.antt =====
-- `LockGuard` of a socket: what it does before an operation and when it is dropped.
use aiocp.Prelude.{◌+◌}
use aiocp.Io.{Outcome, ok, err, panic, Poll, pending, ready, handle_io_pending}
use aiocp.Task.{unlock_to_open}
use aiocp.Pool.BufferPool
use aiocp.Pool.SocketPool
use aiocp.Pool.SocketPool.{SocketPool, Winsock}
use aiocp.Handle.{Ctx, own_header, set_header, set_pool, set_world}
use aiocp.Handle.Guard.{return_permit, drop_overlapped, cancel_if_pending}
use aiocp.Os.{Os}
use aiocp.Port.{release_arc}
use aiocp.Socket.Defs.{Socket, SocketCtx, N}

module _ {W : Type 0} where
  -- `LockGuard::prepare`: the system gets a count of the header. The pools are not cleared.
  unfoldable pub prepare : SocketCtx W → SocketCtx W
  prepare c =
      let h = own_header c.ctx in
      record c { ctx = set_header (record h { strong = h.strong + 1 }) c.ctx }

  -- The rest of the drop once the sockets are cleared, or the clear has panicked: then the header
  -- is not opened, and the permit is still dropped.
  unfoldable pub cleared :
      Ctx W → SocketPool → Outcome (SocketPool × W) → Outcome (Unit {0}) × SocketCtx W
  unfolding unlock_to_open return_permit
  cleared b p (ok (p', w)) =
      let b' = set_world w b in
      (
        ok tt,
        record {
          ctx = return_permit (set_header (unlock_to_open (own_header b')) b');
          sockets = p';
        },
      )
  cleared b p (err e) = (panic, record { ctx = return_permit b; sockets = p })
  cleared b p panic = (panic, record { ctx = return_permit b; sockets = p })

module _ {W : Type 0} (api : Winsock W) where
  -- `drop` of a `LockGuard`: both pools are cleared, the lock opened and the permit returned.
  unfoldable pub drop_guard : SocketCtx W → Outcome (Unit {0}) × SocketCtx W
  unfolding BufferPool.clear SocketPool.clear cleared
  drop_guard c =
      let b = set_pool (BufferPool.clear c.ctx.handle.pool) c.ctx in
      cleared b c.sockets (SocketPool.clear api c.sockets b.shared.world)

  unfoldable pub forget_or_drop :
      {A : Type 0} → Outcome (Unit {0}) → SocketCtx W → Outcome (Poll A) × SocketCtx W
  unfolding drop_overlapped
  forget_or_drop (ok _) c = (ok pending, c)
  forget_or_drop (err e) c = (err e, record c { ctx = drop_overlapped c.ctx })
  forget_or_drop panic c = (panic, record c { ctx = drop_overlapped c.ctx })

  -- The idle branch of a poll: `issue` is the operation's `prepare`.
  unfoldable pub submit : {A : Type 0} → N W (Unit {0}) → N W (Poll A)
  unfolding forget_or_drop
  submit issue c = let (r, c') = issue (prepare c) in forget_or_drop (handle_io_pending r) c'

module _ {W : Type 0} (os : Os W) where
  -- `drop` of a connection that never gets to its caller: `cancel_if_pending`, then its own count of
  -- its header.
  unfoldable pub discard : Socket → SocketCtx W → SocketCtx W
  unfolding cancel_if_pending
  discard socket c =
      let b = cancel_if_pending os (record c.ctx { handle = socket.base }) in
      record c {
        ctx = record c.ctx { shared = (set_header (release_arc (own_header b)) b).shared };
      }

  -- After the drop of the guard. If that panics, the result is dropped while the stack is unwound.
  unfoldable pub dropped :
      Outcome (Poll Socket) → Outcome (Unit {0}) × SocketCtx W → Outcome (Poll Socket) × SocketCtx W
  unfolding discard
  dropped r (ok _, c) = (r, c)
  dropped (ok (ready socket)) (_, c) = (panic, discard socket c)
  dropped _ (_, c) = (panic, c)

module _ {W : Type 0} (os : Os W) (api : Winsock W) where
  -- What the scope of a guard does on its way out, as for a handle.
  unfoldable pub close : Outcome (Poll Socket) × SocketCtx W → Outcome (Poll Socket) × SocketCtx W
  unfolding drop_guard dropped
  close (ok pending, c) = (ok pending, c)
  close (ok (ready a), c) = dropped os (ok (ready a)) (drop_guard api c)
  close (err e, c) = dropped os (err e) (drop_guard api c)
  close (panic, c) = dropped os panic (drop_guard api c)
