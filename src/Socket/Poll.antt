-- ===== src/Socket/Poll.antt =====
-- `RunOperation::poll` of a socket, for the one operation that there is, `Accept`.
use aiocp.Prelude.{ℕ, Bool, Option, none, some}
use aiocp.Io.{
  Outcome, ok, err, panic, Poll, pending, ready, OverlappedState, idle, in_progress,
  polled_after_completion,
}
use aiocp.Os.{Os, Memory}
use aiocp.Pool.SocketPool.{Winsock}
use aiocp.Handle.Guard.{lock, handle_result}
use aiocp.Socket.Defs.{Socket, SocketCtx, N, ◌>>=◌, return, on_ctx}
use aiocp.Socket.Guard.{submit, close}
use aiocp.Socket.Accept.{accept_code, prepare, collect}

-- `State` of a `RunOperation`
pub data State : Type 0 where
  running complete : State

module _ {W : Type 0} where
  unfoldable pub after :
      Outcome (Poll Socket) × SocketCtx W → Outcome (Poll Socket) × State × SocketCtx W
  after (ok (ready socket), c) = (ok (ready socket), complete, c)
  after (ok pending, c) = (ok pending, running, c)
  after (err e, c) = (err e, running, c)
  after (panic, c) = (panic, running, c)

module _ {W : Type 0} (os : Os W) (api : Winsock W) (m : Memory) where
  -- The pending branch. `OverlappedOutcome::None` is applied without effect.
  unfoldable pub finish_accept : ℕ → N W (Poll Socket)
  finish_accept address = do
    r ← on_ctx (handle_result os)
    socket ← collect api address r
    return (ready socket)

  -- What a poll does with the guard that it got, if any.
  unfoldable pub guarded : ℕ → Option OverlappedState → N W (Poll Socket)
  unfolding close
  guarded address none c = (ok pending, c)
  guarded address (some idle) c = close os api (submit api (prepare api m) c)
  guarded address (some in_progress) c = close os api (finish_accept address c)

  unfoldable pub poll_accept : Bool → ℕ → ℕ → N W (Poll Socket)
  poll_accept spurious waker address = do
    g ← on_ctx (lock os spurious accept_code waker)
    guarded address g

  -- `RunOperation::poll`
  unfoldable pub poll :
      Bool → ℕ → ℕ → State → SocketCtx W → Outcome (Poll Socket) × State × SocketCtx W
  unfolding after
  poll spurious waker address running c = after (poll_accept spurious waker address c)
  poll spurious waker address complete c = (err polled_after_completion, complete, c)
