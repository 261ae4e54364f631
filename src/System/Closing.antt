-- ===== src/System/Closing.antt =====
-- The end of a port: after the shutdown the thread consumes the completions that are left, one by
-- one, while tasks still poll, make and drop handles.
pub mod Body
pub mod Drained
pub mod Guarded
pub mod Refused
pub mod Returned
use aiocp.Prelude.{ℕ, ◌-◌, ◌<◌, ◌≡◌, some, List}
use aiocp.Io.{ok}
use aiocp.Pool.SocketPool.{Winsock}
use aiocp.Os.{Os, Memory}
use aiocp.Shared.{Shared}
use aiocp.Port.{CompletionStatus, poll_during_shutdown, release, drop_status}
use aiocp.System.{System, PollStep, OtherStep}

-- The system, and the variable `pending` of the thread, which counts what it still waits for.
pub record Closing (W : Type 0) : Type 0 where
  pub system : System W
  pub remaining : ℕ

-- The rest of a round once it has a status.
abbrev pub consume : {W : Type 0} → Os W → ℕ → CompletionStatus → Shared W → Shared W
consume os rounds st s = drop_status st.header (release os rounds st.header s)

module _ {W : Type 0} (os : Os W) (api : Winsock W) (m : Memory) (owed : W → List ℕ) where
  -- Such a step as before the shutdown, or a round of the thread's second loop: a status is
  -- dequeued, past any repeated shutdowns, released and dropped.
  pub data CloseStep (c : Closing W) : Closing W → Type 0 where
    polls :
        {t : System W} → PollStep os api m owed c.system t → CloseStep c (record c { system = t })
    others :
        {t : System W} → OtherStep os api owed c.system t → CloseStep c (record c { system = t })
    drained :
        (fuel rounds : ℕ) (st : CompletionStatus)
        → 0 < c.remaining
        → (poll_during_shutdown os fuel c.system.shared).0 ≡ some (ok st)
        → CloseStep c (record {
          system = record c.system {
            shared = consume os rounds st (poll_during_shutdown os fuel c.system.shared).1;
          };
          remaining = c.remaining - 1;
        })

  pub data CloseReach (c : Closing W) : Closing W → Type 0 where
    here : CloseReach c c
    next : {d e : Closing W} → CloseReach c d → CloseStep d e → CloseReach c e
