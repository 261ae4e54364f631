-- ===== src/Io.antt =====
-- src/io.rs and src/errors.rs: what an overlapped operation reports, how an immediate error is told
-- from a pending operation, and the shape of the results that the other modules return.
use aiocp.Prelude.{ℕ, Option, some, none, ◌==◌, if◌then◌else◌}

-- `io::Error`: an error number of the system, or one of the crate's own `io::Error::other` texts.
pub data IoError : Type 0 where
  os_error : ℕ → IoError
  shutting_down reserved_port reserved_status polled_after_completion thread_panicked : IoError

-- How a call ends: `Ok`, `Err`, or a panic that unwinds out of it.
pub data Outcome {ℓ} (A : Type ℓ) : Type ℓ where
  ok : A → Outcome A
  err : IoError → Outcome A
  panic : Outcome A

-- `Poll<io::Result<A>>` is `Outcome (Poll A)`: `Poll::Ready(Err(e))` is `err e`.
pub data Poll {ℓ} (A : Type ℓ) : Type ℓ where
  pending : Poll A
  ready : A → Poll A

-- `Code(u32)`
abbrev pub Code : Type 0
Code = ℕ

pub data OverlappedState : Type 0 where
  idle in_progress : OverlappedState

pub record OverlappedResult : Type 0 where
  pub bytes_transferred : ℕ

abbrev pub empty : OverlappedResult
empty = record { bytes_transferred = 0 }

-- `crate::errors::ERROR_IO_PENDING`
abbrev pub error_io_pending : ℕ
error_io_pending = 997

abbrev pub raw_os_error : IoError → Option ℕ
raw_os_error (os_error n) = some n
raw_os_error _ = none

abbrev is_io_pending : Option ℕ → Outcome (Unit {0}) → Outcome (Unit {0})
is_io_pending none other = other
is_io_pending (some n) other = if n == error_io_pending then ok tt else other

-- A call that reports `ERROR_IO_PENDING` has been queued: that is no error.
unfoldable pub handle_io_pending {ℓ} : {A : Type ℓ} → Outcome A → Outcome (Unit {0})
handle_io_pending (ok _) = ok tt
handle_io_pending (err e) = is_io_pending (raw_os_error e) (err e)
handle_io_pending panic = panic

-- The rest of a chain of calls, which is left out on an error or a panic.
abbrev pub and_then {ℓ κ} : {A : Type ℓ} {B : Type κ} → Outcome A → (A → Outcome B) → Outcome B
and_then (ok a) f = f a
and_then (err e) f = err e
and_then panic f = panic
