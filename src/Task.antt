-- ===== src/Task.antt =====
-- src/task.rs: the header that an operation shares with the completion port, and its lock.
pub mod Lock
pub mod Rounds
use aiocp.Prelude.{ℕ, suc, Bool, true, false, not, List, [], ◌∷◌, replicate, if◌then◌else◌}
use aiocp.Prelude.Int.{ℤ, pos, neg, is_pos, eq_ℤ}
use aiocp.Io.{Code, OverlappedState, idle, in_progress}

-- `Header`, with the cursor of its `OVERLAPPED` and the strong count of the `Arc` that it lives in.
-- The lock is an `AtomicI64`: 0 is open, n > 0 an operation in flight, n < 0 a completed one.
pub record Header : Type 0 where
  pub lock : ℤ
  pub offset : ℕ  -- u32
  pub offset_high : ℕ  -- u32
  pub strong : ℕ

abbrev pub new : Header
new = record { lock = pos 0; offset = 0; offset_high = 0; strong = 1 }

-- `Header::state`
unfoldable pub state : Header → OverlappedState
state h = if is_pos h.lock then in_progress else idle

pub data LockResult : Type 0 where
  acquired : OverlappedState → LockResult
  busy : Bool → LockResult

-- `id as i64 + 1`
abbrev pub lock_id : Code → ℤ
lock_id code = pos (suc code)

-- A weak compare-exchange of 0 for `id`: `true` is success. It may fail with the lock at 0.
unfoldable pub exchange_open : Bool → ℤ → ℤ → Bool × ℤ
exchange_open spurious id old =
    if eq_ℤ old (pos 0) then (if spurious then (false, old) else (true, id)) else (false, old)

-- The rest of `header_lock` once the exchange has failed and read `n`.
unfoldable pub after_failure : ℤ → ℤ → Header → LockResult × Header
after_failure id n h =
    if is_pos n
    then (busy (not (eq_ℤ id (neg n))), h)
    else (acquired (if eq_ℤ id (neg n) then in_progress else idle), record h { lock = pos 0 })

-- `Header::header_lock`; `spurious` says whether the weak compare-exchange fails at an open lock.
unfoldable pub header_lock : Bool → Code → Header → LockResult × Header
unfolding exchange_open after_failure
header_lock spurious code h =
    let (won, n) = exchange_open spurious (lock_id code) h.lock in
    if won then (acquired idle, record h { lock = n }) else after_failure (lock_id code) n h

-- The loop of `Header::unlock`, from the value `old` that was read. Each entry of the list is a
-- round whose weak compare-exchange fails: by itself, or since the lock became another value, which
-- is what the round then reads. After the last entry the lock has the value read and the exchange
-- goes through.
unfoldable pub unlock_loop : List ℤ → ℤ → ℤ × Bool
unlock_loop [] old = if is_pos old then (neg old, true) else (old, false)
unlock_loop (o ∷ rounds) old =
    let again = unlock_loop rounds o in if is_pos old then again else (old, false)

-- `Header::unlock`: whether there was an operation in flight, which is then marked as completed.
-- `spurious` counts the rounds whose exchange fails by itself.
unfoldable pub unlock : ℕ → Header → Header × Bool
unlock spurious h =
    let (lock, done) = unlock_loop (replicate spurious h.lock) h.lock in
    (record h { lock = lock }, done)

-- `Header::unlock_to_open`
unfoldable pub unlock_to_open : Header → Header
unlock_to_open h = record h { lock = pos 0 }
