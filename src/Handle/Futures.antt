-- ===== src/Handle/Futures.antt =====
-- The futures of `Handle` in src/handle.rs, and its `AsyncRead` and `AsyncWrite`. A future is the
-- state of its `RunOperation`, which `Poll.poll` polls; `await` adds nothing to that.
use aiocp.Prelude.{ℕ, Bool, List}
use aiocp.Io.{Poll, ready}
use aiocp.Os.{Os, Memory}
use aiocp.Handle.Defs.{M, pure}
use aiocp.Handle.Operation.{Operation}
use aiocp.Handle.Poll as Polls
use aiocp.Handle.Poll.{State, running}

-- `RunOperation::new`
unfoldable pub new : Operation → State
new op = running op

-- `Handle::run_operation`
unfoldable pub run_operation : Operation → State
unfolding new
run_operation op = new op

-- `Handle::write`
unfoldable pub write : List ℕ → State
unfolding run_operation
write buf = run_operation (Operation.write buf)

-- `Handle::read`
unfoldable pub read : List ℕ → State
unfolding run_operation
read buf = run_operation (Operation.read buf)

-- `Handle::connect_named_pipe`
unfoldable pub connect_named_pipe : State
unfolding run_operation
connect_named_pipe = run_operation Operation.connect_named_pipe

-- `Handle::device_io_control`, with the control code and the bytes of the message
unfoldable pub device_io_control : ℕ → List ℕ → State
unfolding run_operation
device_io_control control bytes = run_operation (Operation.device_io_ctl control bytes)

module _ {W : Type 0} (os : Os W) (m : Memory) where
  -- `AsyncRead::poll_read`
  unfoldable pub poll_read : Bool → ℕ → List ℕ → M W (Poll (List ℕ))
  poll_read spurious waker room = Polls.poll_read os m spurious waker room

  -- `AsyncWrite::poll_write`
  unfoldable pub poll_write : Bool → ℕ → List ℕ → M W (Poll ℕ)
  poll_write spurious waker bytes = Polls.poll_write os m spurious waker bytes

module _ {W : Type 0} where
  -- `AsyncWrite::poll_flush`
  unfoldable pub poll_flush : M W (Poll (Unit {0}))
  poll_flush = pure (ready tt)

  -- `AsyncWrite::poll_shutdown`
  unfoldable pub poll_shutdown : M W (Poll (Unit {0}))
  poll_shutdown = pure (ready tt)
