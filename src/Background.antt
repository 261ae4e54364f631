-- ===== src/Background.antt =====
-- src/background.rs: the thread that dequeues completions, until a shutdown and through it.
pub mod Queue
pub mod Loops
pub mod Termination
pub mod Drain
pub mod Life
pub mod Liveness
pub mod Posting
pub mod Tally
pub mod Waking
pub mod Race
use aiocp.Prelude.{ℕ, zero, suc, Option, none, some}
use aiocp.Io.{thread_panicked, Outcome, ok, err, panic}
use aiocp.Os.{Os}
use aiocp.Shared.{Shared}
use aiocp.Port.{
  CompletionOutcome, completed, aborted, errored, CompletionStatus, CompletionPoll, shutdown,
  status, poll, poll_during_shutdown, release, unlock_status, drop_status,
}

-- `BackgroundThread::join`, with the result of the thread's body.
unfoldable pub join : Outcome (Unit {0}) → Outcome (Unit {0})
join (ok u) = ok u
join (err e) = err e
join panic = err thread_panicked

module _ {W : Type 0} (os : Os W) where
  unfoldable pub by_outcome : CompletionOutcome → ℕ → Option ℕ → Shared W → Shared W
  by_outcome aborted spurious header s = unlock_status spurious header s
  by_outcome completed spurious header s = release os spurious header s
  by_outcome errored spurious header s = release os spurious header s

  -- What the first loop does with a status, which is dropped at the end. `spurious` counts the weak
  -- exchanges that fail by themselves.
  unfoldable pub dispatch : ℕ → CompletionStatus → Shared W → Shared W
  dispatch spurious st s = drop_status st.header (by_outcome st.outcome spurious st.header s)

  -- The first loop; `none` means that the fuel ran out.
  unfoldable pub run : ℕ → ℕ → Shared W → Option (Outcome ℕ) × Shared W
  run spurious zero s = (none, s)
  run spurious (suc fuel) s =
      let (r, s') = poll os s in
      elim r [
        | ok (shutdown n) ↦ (some (ok n), s')
        | ok (status st) ↦ run spurious fuel (dispatch spurious st s')
        | err e ↦ (some (err e), s')
        | panic ↦ (some panic, s')
      ]

  -- The second loop, `while pending > 0`; each round may skip up to `fuel` repeated shutdowns.
  unfoldable pub drain : ℕ → ℕ → ℕ → Shared W → Option (Outcome (Unit {0})) × Shared W
  drain spurious fuel zero s = (some (ok tt), s)
  drain spurious fuel (suc n) s =
      let (r, s') = poll_during_shutdown os fuel s in
      elim r [
        | some (ok st) ↦
            drain spurious fuel n (drop_status st.header (release os spurious st.header s'))
        | some (err e) ↦ (some (err e), s')
        | some panic ↦ (some panic, s')
        | none ↦ (none, s')
      ]

  -- The body of the thread.
  unfoldable pub thread_body : ℕ → ℕ → Shared W → Option (Outcome (Unit {0})) × Shared W
  thread_body spurious fuel s =
      let (r, s') = run spurious fuel s in
      elim r [
        | some (ok n) ↦ drain spurious fuel n s'
        | some (err e) ↦ (some (err e), s')
        | some panic ↦ (some panic, s')
        | none ↦ (none, s')
      ]
