-- ===== src/Handle/Poll.antt =====
-- The polls of a handle: `RunOperation::poll`, `Handle::poll_read` and `Handle::poll_write`.
use aiocp.Prelude.{ℕ, Bool, Option, none, some, List, length}
use aiocp.Io.{
  Outcome, ok, err, panic, Poll, pending, ready, OverlappedState, idle, in_progress,
  polled_after_completion,
}
use aiocp.Os.{Os, Memory}
use aiocp.Pool.BufferPool
use aiocp.Handle.Defs.{Ctx, M, ◌>>=◌, ◌>>◌, pure, unwind, on_pool}
use aiocp.Handle.Guard.{lock, with_guard, submit, handle_result, advance}
use aiocp.Handle.Ext.{read_overlapped, write_overlapped}
use aiocp.Handle.Operation.{
  Operation, Output, read_code, write_code, code, prepare, collect, apply_to, take_filled,
}

-- `State` of a `RunOperation`
pub data State : Type 0 where
  running : Operation → State
  complete : State

module _ {W : Type 0} where
  -- What a poll does with the guard that it got, if any.
  unfoldable pub guarded :
      {A : Type 0} → M W (Unit {0}) → M W (Poll A) → Option OverlappedState → M W (Poll A)
  guarded issue finish none = pure pending
  guarded issue finish (some idle) = with_guard (submit issue)
  guarded issue finish (some in_progress) = with_guard finish

  unfoldable pub after :
      Operation → Outcome (Poll Output) × Ctx W → Outcome (Poll Output) × State × Ctx W
  after op (ok (ready output), c) = (ok (ready output), complete, c)
  after op (ok pending, c) = (ok pending, running op, c)
  after op (err e, c) = (err e, running op, c)
  after op (panic, c) = (panic, running op, c)

  unfoldable pub put_filled : List ℕ → Option (List ℕ) → M W (List ℕ)
  put_filled bytes none = unwind
  put_filled bytes (some slice) = pure bytes

module _ {W : Type 0} (os : Os W) (m : Memory) where
  -- The pending branch of `RunOperation::poll`.
  unfoldable pub finish_operation : Operation → M W (Poll Output)
  finish_operation op = do
    r ← handle_result os
    (output, outcome) ← collect op r
    apply_to outcome
    pure (ready output)

  -- The running branch of `RunOperation::poll`.
  unfoldable pub poll_operation : Bool → ℕ → Operation → M W (Poll Output)
  poll_operation spurious waker op = do
    g ← lock os spurious (code op) waker
    guarded (prepare os m op) (finish_operation op) g

  -- `RunOperation::poll`
  unfoldable pub poll : Bool → ℕ → State → Ctx W → Outcome (Poll Output) × State × Ctx W
  unfolding after
  poll spurious waker (running op) c = after op (poll_operation spurious waker op c)
  poll spurious waker complete c = (err polled_after_completion, complete, c)

  -- The pending branch of `Handle::poll_read`: the bytes go to the unfilled part of the caller's
  -- buffer, which panics if they do not fit, and the cursor moves past them.
  unfoldable pub finish_read : List ℕ → M W (Poll (List ℕ))
  finish_read room = do
    r ← handle_result os
    bytes ← on_pool (BufferPool.release r.bytes_transferred)
    written ← put_filled bytes (m.put_slice room bytes)
    advance (length written)
    pure (ready written)

  -- `Handle::poll_read`, with the unfilled part of the caller's buffer; the bytes that it appends.
  unfoldable pub poll_read : Bool → ℕ → List ℕ → M W (Poll (List ℕ))
  poll_read spurious waker room = do
    g ← lock os spurious read_code waker
    guarded (do b ← on_pool (BufferPool.take_buffer m (length room)); read_overlapped os b)
        (finish_read room) g

  -- The pending branch of `Handle::poll_write`.
  unfoldable pub finish_write : M W (Poll ℕ)
  finish_write = do
    r ← handle_result os
    advance r.bytes_transferred
    pure (ready r.bytes_transferred)

  -- `Handle::poll_write`
  unfoldable pub poll_write : Bool → ℕ → List ℕ → M W (Poll ℕ)
  poll_write spurious waker bytes = do
    g ← lock os spurious write_code waker
    guarded (do take_filled os m bytes; n ← write_overlapped os bytes; pure tt) finish_write g
