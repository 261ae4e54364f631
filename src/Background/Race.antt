-- ===== src/Background/Race.antt =====
-- A poll and the thread on the same header at the same time, one atomic step each:
-- `register_by_ref` and `header_lock` of the task, `unlock` and `wake` of the thread (src/task.rs).
pub mod Places
pub mod Woken
pub mod Line
pub mod Linear
pub mod Orders
use aiocp.Prelude.{ℕ, Bool, true, false, ◌≡◌, if◌then◌else◌}
use aiocp.Prelude.Int.{ℤ, neg, is_pos}
use aiocp.Io.{Code, idle}
use aiocp.Os.{Os}
use aiocp.Task.{Header, LockResult, acquired, exchange_open, after_failure, lock_id}

-- Where the task is: its waker is registered, its exchange has failed on the value that it read, or
-- the lock has answered.
pub data TaskPc : Type 0 where
  entering : TaskPc
  registered : TaskPc
  failed : ℤ → TaskPc
  answered : LockResult → TaskPc

-- Where the thread is: it has the packet, it has read the lock, its loop has ended and says whether
-- there was an operation in flight, or it is done with the header.
pub data ThreadPc : Type 0 where
  dequeued : ThreadPc
  loaded : ℤ → ThreadPc
  unlocked : Bool → ThreadPc
  finished : ThreadPc

pub record Race (W : Type 0) : Type 0 where
  pub world : W
  pub header : Header
  pub task : TaskPc
  pub thread : ThreadPc

abbrev pub set_lock : ℤ → Header → Header
set_lock n h = record h { lock = n }

module _ {W : Type 0} where
  -- The weak compare-exchange of the task; it goes through, or reads the lock.
  unfoldable pub exchanged : Bool → Code → Race W → Race W
  unfolding exchange_open
  exchanged spurious code c =
      let (won, n) = exchange_open spurious (lock_id code) c.header.lock in
      record c {
        header = set_lock n c.header;
        task = if won then answered (acquired idle) else failed n;
      }

  -- What the task does with the value `n` that it read.
  unfoldable pub checked : Code → ℤ → Race W → Race W
  unfolding after_failure
  checked code n c =
      let (r, h) = after_failure (lock_id code) n c.header in
      record c { header = h; task = answered r }

  -- The task begins a poll while the thread has the packet of the operation in flight.
  abbrev pub meeting : W → Header → Race W
  meeting w h = record { world = w; header = h; task = entering; thread = dequeued }

module _ {W : Type 0} (os : Os W) (a k : ℕ) (code : Code) where
  -- One atomic step, of the task or of the thread. The address of the header is `a`, the task's
  -- waker `k`.
  pub data RaceStep (c : Race W) : Race W → Type 0 where
    registers :
        c.task ≡ entering
        → RaceStep c (record c { world = os.register_waker a k c.world; task = registered })
    exchanges : (spurious : Bool) → c.task ≡ registered → RaceStep c (exchanged spurious code c)
    checks : (n : ℤ) → c.task ≡ failed n → RaceStep c (checked code n c)
    loads : c.thread ≡ dequeued → RaceStep c (record c { thread = loaded c.header.lock })
    swaps :
        (old : ℤ)
        → c.thread ≡ loaded old
        → is_pos old ≡ true
        → c.header.lock ≡ old
        → RaceStep c (record c { header = set_lock (neg old) c.header; thread = unlocked true })
    -- The weak exchange fails, by itself or since the lock has another value, and reads the lock.
    retries :
        (old : ℤ)
        → c.thread ≡ loaded old
        → is_pos old ≡ true
        → RaceStep c (record c { thread = loaded c.header.lock })
    leaves :
        (old : ℤ)
        → c.thread ≡ loaded old
        → is_pos old ≡ false
        → RaceStep c (record c { thread = unlocked false })
    wakes :
        (done : Bool)
        → c.thread ≡ unlocked done
        → RaceStep c
            (record c { world = if done then os.wake a c.world else c.world; thread = finished })

  pub data RaceReach (c : Race W) : Race W → Type 0 where
    here : RaceReach c c
    next : {d e : Race W} → RaceReach c d → RaceStep d e → RaceReach c e
