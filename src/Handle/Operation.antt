-- ===== src/Handle/Operation.antt =====
-- src/handle/operation.rs: the four operations on a handle, how each is started and collected.
use aiocp.Prelude.{ℕ, List, ◌++◌, length, drop, leb, if◌then◌else◌}
use aiocp.Io.{Code, OverlappedResult}
use aiocp.Os.{Os, Memory}
use aiocp.Pool.BufferPool
use aiocp.Handle.Defs.{M, ◌>>=◌, ◌>>◌, pure, unwind, on_pool}
use aiocp.Handle.Guard.{advance}
use aiocp.Handle.Ext.{
  read_overlapped, write_overlapped, connect_overlapped, device_io_control_overlapped,
}

abbrev pub read_code : Code
read_code = 0x7f_ff_ff_01

abbrev pub write_code : Code
write_code = 0x7f_ff_ff_02

abbrev pub io_ctl_code : Code
io_ctl_code = 0x7f_ff_ff_03

abbrev pub connect_named_pipe_code : Code
connect_named_pipe_code = 0x7f_ff_ff_04

-- `OverlappedOutcome`
pub data OverlappedOutcome : Type 0 where
  unchanged : OverlappedOutcome
  advances : ℕ → OverlappedOutcome

-- The implementations of the trait `Operation`: `Write` and `Read` with the caller's buffer,
-- `ConnectNamedPipe`, and `DeviceIoCtl` with its control code and the bytes of the message.
pub data Operation : Type 0 where
  write : List ℕ → Operation
  read : List ℕ → Operation
  connect_named_pipe : Operation
  device_io_ctl : ℕ → List ℕ → Operation

-- What `collect` gives: the count of bytes, and for a read the caller's buffer as it is then.
pub data Output : Type 0 where
  transferred : ℕ → Output
  filled : ℕ → List ℕ → Output
  connected : Output

-- `Operation::CODE`
unfoldable pub code : Operation → Code
code (write _) = write_code
code (read _) = read_code
code connect_named_pipe = connect_named_pipe_code
code (device_io_ctl _ _) = io_ctl_code

module _ {W : Type 0} where
  -- `OverlappedOutcome::apply_to`
  unfoldable pub apply_to : OverlappedOutcome → M W (Unit {0})
  apply_to unchanged = pure tt
  apply_to (advances n) = advance n

  -- `self.buf.as_mut()[..filled.len()].copy_from_slice(filled)`, which panics if that is too long.
  unfoldable pub copied : List ℕ → List ℕ → M W (Output × OverlappedOutcome)
  copied buf bytes =
      if leb (length bytes) (length buf)
      then pure (filled (length bytes) (bytes ++ drop (length bytes) buf), advances (length bytes))
      else unwind

  -- `Operation::collect`
  unfoldable pub collect : Operation → OverlappedResult → M W (Output × OverlappedOutcome)
  collect (write _) r = pure (transferred r.bytes_transferred, unchanged)
  collect (read buf) r = do
    bytes ← on_pool (BufferPool.release r.bytes_transferred)
    copied buf bytes
  collect connect_named_pipe r = pure (connected, unchanged)
  collect (device_io_ctl _ _) r = pure (transferred r.bytes_transferred, unchanged)

module _ {W : Type 0} (os : Os W) (m : Memory) where
  -- A buffer is taken, filled with the caller's bytes and handed on.
  unfoldable pub take_filled : List ℕ → M W (Unit {0})
  take_filled bytes = do
    b ← on_pool (BufferPool.take_buffer m (length bytes))
    on_pool (BufferPool.put_slice m b bytes)

  -- `Operation::prepare`
  unfoldable pub prepare : Operation → M W (Unit {0})
  prepare (write bytes) = do take_filled bytes; n ← write_overlapped os bytes; pure tt
  prepare (read buf) = do b ← on_pool (BufferPool.take_buffer m (length buf)); read_overlapped os b
  prepare connect_named_pipe = connect_overlapped os
  prepare (device_io_ctl control bytes) = do
    take_filled bytes
    n ← device_io_control_overlapped os control bytes
    pure tt
