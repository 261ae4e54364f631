-- ===== src/Os.antt =====
-- What the crate calls and does not implement: Windows, the wakers, and the memory of buffers.
-- Each is a field of a record that the other modules take as a parameter.
use aiocp.Prelude.{ℕ, ◌+◌, ◌≤◌, ◌<◌, ◌≡◌, Option, none, some, List, ◌++◌, length, drop}

-- A system call's Boolean result, with the count that it wrote or the number of `GetLastError`.
pub data Call : Type 0 where
  success : ℕ → Call
  failure : ℕ → Call

-- What `GetQueuedCompletionStatus` returns. A null overlapped pointer is `none`.
pub record Dequeued : Type 0 where
  pub result : Call
  pub bytes_transferred : ℕ
  pub completion_key : ℕ
  pub overlapped : Option ℕ

-- `W` is the state of everything outside the crate. A pointer to a header, a raw handle and a waker
-- are numbers. `register_waker` and `wake` are the two calls of the copied `AtomicWaker`.
pub record Os (W : Type 0) : Type 0 where
  pub register_waker : ℕ → ℕ → W → W
  pub wake : ℕ → W → W
  pub cancel_io_ex : ℕ → ℕ → W → W
  pub read_file : ℕ → ℕ → ℕ → W → Call × W
  pub write_file : ℕ → List ℕ → ℕ → W → Call × W
  pub connect_named_pipe : ℕ → ℕ → W → Call × W
  pub device_io_control : ℕ → ℕ → List ℕ → ℕ → W → Call × W
  pub get_overlapped_result : ℕ → ℕ → W → Call × W
  pub create_io_completion_port : ℕ → ℕ → ℕ → ℕ → W → Call × W
  pub get_queued_completion_status : ℕ → W → Dequeued × W
  pub post_queued_completion_status : ℕ → ℕ → ℕ → W → Call × W
  pub close_handle : ℕ → W → W
  pub error_handle_eof : ℕ
  pub error_broken_pipe : ℕ
  pub error_operation_aborted : ℕ
  pub invalid_handle_value : ℕ

-- Memory blocks as lists of bytes: `Vec::with_capacity` and `Vec::reserve` (its length, the block
-- and the count asked for), and `ReadBuf::put_slice` into a block, where `none` is its panic.
pub record Memory : Type 0 where
  pub with_capacity : ℕ → List ℕ
  pub reserve : ℕ → List ℕ → ℕ → List ℕ
  pub put_slice : List ℕ → List ℕ → Option (List ℕ)

-- What their documentation says.
pub record MemoryLaws (m : Memory) : Type 0 where
  pub with_capacity-le : (n : ℕ) → n ≤ length (m.with_capacity n)
  pub reserve-le : (len : ℕ) (block : List ℕ) (k : ℕ) → len + k ≤ length (m.reserve len block k)
  pub reserve_sufficient :
      (len : ℕ) (block : List ℕ) (k : ℕ) → len + k ≤ length block → m.reserve len block k ≡ block
  pub put_slice_fits :
      (block data' : List ℕ)
      → length data' ≤ length block
      → m.put_slice block data' ≡ some (data' ++ drop (length data') block)
  pub put_slice_over :
      (block data' : List ℕ) → length block < length data' → m.put_slice block data' ≡ none
