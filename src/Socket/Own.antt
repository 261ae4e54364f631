-- ===== src/Socket/Own.antt =====
-- The methods of src/socket.rs that repeat those of src/handle.rs, on the fields of the socket.
use aiocp.Prelude.{
  ℕ, ◌+◌, ◌/◌, ◌^◌, ◌-◌, Bool, true, false, Option, some, none, ltb, ◌==◌, if◌then◌else◌,
}
use Prim.Native.Nat.{bit_and}
use aiocp.Io.{
  Code, Outcome, ok, err, panic, Poll, pending, ready, OverlappedState, idle, in_progress,
  OverlappedResult, empty, os_error,
}
use aiocp.Os.{Os, Memory, Call, success, failure}
use aiocp.Task
use aiocp.Task.{LockResult, acquired, busy, header_lock}
use aiocp.Port.{permit, drop_permit}
use aiocp.Handle.{own_header, set_header, set_world, set_port}
use aiocp.Handle.Guard.{cursor}
use aiocp.Socket.Defs.{Socket, SocketCtx, N, ◌>>=◌, ◌>>◌, return}
use aiocp.Socket.Guard.{submit, close}
use aiocp.Socket.Poll.{State, running}
use aiocp.Socket.Accept.{accept_code, prepare, collect}
use aiocp.Pool.SocketPool.{Winsock}

-- `OverlappedOutcome` of src/socket/operation.rs
pub data OverlappedOutcome : Type 0 where
  unchanged : OverlappedOutcome
  advances : ℕ → OverlappedOutcome

module _ {W : Type 0} where
  unfoldable pub act : (SocketCtx W → SocketCtx W) → N W (Unit {0})
  act f c = (ok tt, f c)

  -- `self.port.permit()?`
  unfoldable pub take_permit : N W (Unit {0})
  unfolding permit
  take_permit c = let (r, p) = permit c.ctx.shared.port in (r, record c { ctx = set_port p c.ctx })

  unfoldable pub return_permit : SocketCtx W → SocketCtx W
  unfolding drop_permit
  return_permit c = record c { ctx = set_port (drop_permit c.ctx.shared.port) c.ctx }

  -- `self.header.header_lock(code)`
  unfoldable pub lock_header : Bool → Code → N W LockResult
  unfolding header_lock
  lock_header spurious code c =
      let (r, h) = header_lock spurious code (own_header c.ctx) in
      (ok r, record c { ctx = set_header h c.ctx })

  -- `LockGuard::advance`
  unfoldable pub advance : ℕ → N W (Unit {0})
  advance amount c =
      let h = own_header c.ctx in
      let n = cursor h + amount in
      if ltb n (2 ^ 64)
      then (
        ok tt,
        record c {
          ctx =
              set_header (record h { offset = bit_and n (2 ^ 32 - 1); offset_high = n / 2 ^ 32 })
                c.ctx;
        },
      )
      else (panic, c)

  -- `OverlappedOutcome::apply_to`
  unfoldable pub apply_to : OverlappedOutcome → N W (Unit {0})
  unfolding advance
  apply_to unchanged = return tt
  apply_to (advances n) = advance n

module _ {W : Type 0} (os : Os W) where
  -- `Socket::register_by_ref`
  unfoldable pub register_by_ref : ℕ → SocketCtx W → SocketCtx W
  register_by_ref waker c = record c {
    ctx = set_world (os.register_waker c.ctx.handle.header waker c.ctx.shared.world) c.ctx;
  }

  -- `Socket::cancel_immediate`
  unfoldable pub cancel_immediate : SocketCtx W → SocketCtx W
  cancel_immediate c = record c {
    ctx = set_world (os.cancel_io_ex c.ctx.handle.raw c.ctx.handle.header c.ctx.shared.world) c.ctx;
  }

  -- `Socket::cancel_if_pending`
  unfoldable pub cancel_if_pending : SocketCtx W → SocketCtx W
  unfolding cancel_immediate Task.state
  cancel_if_pending c = elim (Task.state (own_header c.ctx)) [
    | idle ↦ c
    | in_progress ↦ cancel_immediate c
  ]

  -- `drop` of a `Socket`
  unfoldable pub drop_socket : SocketCtx W → SocketCtx W
  unfolding cancel_if_pending
  drop_socket c = cancel_if_pending c

  -- The match in `Socket::lock`. Where the lock is busy the permit is dropped.
  unfoldable pub locked : LockResult → N W (Option OverlappedState)
  unfolding cancel_immediate return_permit
  locked (acquired state) c = (ok (some state), c)
  locked (busy true) c = (ok none, return_permit (cancel_immediate c))
  locked (busy false) c = (ok none, return_permit c)

  -- `Socket::lock`; `some` is a guard with its state.
  unfoldable pub lock : Bool → Code → ℕ → N W (Option OverlappedState)
  unfolding act
  lock spurious code waker = do
    take_permit
    act (register_by_ref waker)
    r ← lock_header spurious code
    locked r

  result_of : Call → Outcome OverlappedResult
  result_of (success n) = ok (record { bytes_transferred = n })
  result_of (failure e) =
      if e == os.error_handle_eof
      then ok empty
      else if e == os.error_broken_pipe
      then ok empty
      else err (os_error e)

  -- `LockGuard::result`
  unfoldable pub result : N W OverlappedResult
  unfolding result_of
  result c =
      let (call, w) =
        os.get_overlapped_result c.ctx.handle.raw c.ctx.handle.header c.ctx.shared.world in
      (result_of call, record c { ctx = set_world w c.ctx })

module _ {W : Type 0} (os : Os W) (api : Winsock W) (m : Memory) where
  -- The outcome that `Accept::collect` returns beside the socket.
  abbrev pub collect_outcome : OverlappedOutcome
  collect_outcome = unchanged

  -- The pending branch of `RunOperation::poll`
  unfoldable pub finish_accept : ℕ → N W (Poll Socket)
  finish_accept address = do
    r ← result os
    socket ← collect api address r
    apply_to collect_outcome
    return (ready socket)

  unfoldable pub guarded : ℕ → Option OverlappedState → N W (Poll Socket)
  unfolding close
  guarded address none c = (ok pending, c)
  guarded address (some idle) c = close os api (submit api (prepare api m) c)
  guarded address (some in_progress) c = close os api (finish_accept address c)

  -- The running branch of `RunOperation::poll`, with the socket's own methods.
  unfoldable pub poll_accept : Bool → ℕ → ℕ → N W (Poll Socket)
  poll_accept spurious waker address = do g ← lock os spurious accept_code waker; guarded address g

-- `RunOperation::new`
unfoldable pub new : State
new = running

-- `Socket::run_operation`
unfoldable pub run_operation : State
unfolding new
run_operation = new

-- `Socket::accept`
unfoldable pub accept : State
unfolding run_operation
accept = run_operation
