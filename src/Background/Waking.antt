-- ===== src/Background/Waking.antt =====
-- Who is woken: what the packet of an operation in flight does for a task that waits behind it.
use aiocp.Prelude.{ℕ, ◌^◌, ◌<◌, ◌≡◌, refl, ap, ◌∙◌, Bool, true, Option, some, arith}
use aiocp.Io.{Code, ok, pending}
use aiocp.Os.{Os, Memory}
use aiocp.Task.{Header, unlock}
use aiocp.Task.Lock.{phase, phase_of, submitted, completed as is_completed}
use aiocp.Task.Rounds.{unlock-completes}
use aiocp.Shared.{Shared, update}
use aiocp.Port.{
  CompletionOutcome, completed, aborted, errored, CompletionStatus, poll_status, reserved_ports,
  fetch_sub, drop_status, release, release_header, unlock_status,
}
use aiocp.Background.{dispatch, by_outcome}
use aiocp.Background.Life.{by_outcome-Unlocked, poll_status-ordinary}
use aiocp.Handle.{Ctx, own_header}
use aiocp.Handle.Operation.{Operation}
use aiocp.Handle.Poll.{running, poll}
use aiocp.Handle.Answers.{Cancelled, poll-Cancelled}

module _ {W : Type 0} (os : Os W) where
  -- The task of a header is woken, unless the operation was aborted.
  abbrev pub woken : CompletionOutcome → ℕ → W → W
  woken aborted a w = w
  woken completed a w = os.wake a w
  woken errored a w = os.wake a w

  -- The packet of the operation in flight has been dealt with.
  pub record Settled (outcome : CompletionOutcome) (a : ℕ) (sent : Code) (w : W) (s : Shared W)
      : Type 0 where
    pub lock : phase (s.heap a) ≡ is_completed sent
    pub world : s.world ≡ woken outcome a w

  update_own : (heap : ℕ → Header) (a : ℕ) (h : Header) → update heap a h a ≡ h
  update_own heap a h = ground arith

  unlock-flying :
      (rounds : ℕ) (sent : Code) (h : Header)
      → phase h ≡ submitted sent
      → (phase (unlock rounds h).0 ≡ is_completed sent) × ((unlock rounds h).1 ≡ true)
  unlock-flying rounds sent h e = ground (arith, unlock-completes rounds h, e)

  drop_status-phase :
      (a : ℕ) (s : Shared W) → phase ((drop_status (some a) s).heap a) ≡ phase (s.heap a)
  unfolding drop_status
  drop_status-phase a s =
      let same : ((drop_status (some a) s).heap a).lock ≡ (s.heap a).lock = ground arith in
      ap phase_of same

  by_outcome-completed :
      (outcome : CompletionOutcome) (rounds a : ℕ) (sent : Code) (s : Shared W)
      → phase (s.heap a) ≡ submitted sent
      → phase ((by_outcome os outcome rounds (some a) s).heap a) ≡ is_completed sent
  by_outcome-completed outcome rounds a sent s e =
      let u = by_outcome-Unlocked os outcome rounds a s in
      let own : ((by_outcome os outcome rounds (some a) s).heap a) ≡ (unlock rounds (s.heap a)).0 =
        ap (λ f. f a) u.heap ∙ update_own s.heap a (unlock rounds (s.heap a)).0 in
      ap phase own ∙ (unlock-flying rounds sent (s.heap a) e).0

  release_header-wakes :
      (rounds a : ℕ) (sent : Code) (s : Shared W)
      → phase (s.heap a) ≡ submitted sent
      → (release_header os rounds a s).world ≡ os.wake a s.world
  unfolding release_header
  release_header-wakes rounds a sent s e = rw (unlock-flying rounds sent (s.heap a) e).1

  by_outcome-world :
      (outcome : CompletionOutcome) (rounds a : ℕ) (sent : Code) (s : Shared W)
      → phase (s.heap a) ≡ submitted sent
      → (by_outcome os outcome rounds (some a) s).world ≡ woken outcome a s.world
  unfolding by_outcome unlock_status release
  by_outcome-world aborted rounds a sent s e = refl
  by_outcome-world completed rounds a sent s e = release_header-wakes rounds a sent s e
  by_outcome-world errored rounds a sent s e = release_header-wakes rounds a sent s e

  by_outcome-Settled :
      (outcome : CompletionOutcome) (rounds a : ℕ) (sent : Code) (s : Shared W)
      → phase (s.heap a) ≡ submitted sent
      → Settled outcome a sent s.world
          (drop_status (some a) (by_outcome os outcome rounds (some a) s))
  by_outcome-Settled outcome rounds a sent s e = record {
    lock =
        drop_status-phase a (by_outcome os outcome rounds (some a) s)
        ∙ by_outcome-completed outcome rounds a sent s e;
    world = unfold drop_status in by_outcome-world outcome rounds a sent s e;
  }

  outcome-Settled :
      (outcome : CompletionOutcome) (rounds a : ℕ) (sent : Code) (header : Option ℕ)
      (s s1 : Shared W)
      → header ≡ some a
      → s1 ≡ record s { port = fetch_sub 1 s.port }
      → phase (s.heap a) ≡ submitted sent
      → Settled outcome a sent s.world (drop_status header (by_outcome os outcome rounds header s1))
  outcome-Settled outcome rounds a sent header s s1 own p e =
      rw own
        (rw p (by_outcome-Settled outcome rounds a sent (record s { port = fetch_sub 1 s.port }) e))

  pub dispatch-Settled :
      (rounds a : ℕ) (sent : Code) (st : CompletionStatus) (s : Shared W)
      → st.header ≡ some a
      → st.completion_key < reserved_ports
      → phase (s.heap a) ≡ submitted sent
      → Settled st.outcome a sent s.world (dispatch os rounds st (poll_status os st s).1)
  unfolding dispatch
  dispatch-Settled rounds a sent st s own o e =
      outcome-Settled st.outcome rounds a sent st.header s (poll_status os st s).1 own
        (poll_status-ordinary os st s o) e

module _ {W : Type 0} (os : Os W) (m : Memory) where
  -- A task that polls any operation while one is in flight stays pending behind it, with its waker
  -- registered and the one in flight cancelled. The thread then dequeues the packet of that one,
  -- under an ordinary key: its header is completed for whoever polls next, and the waker of the
  -- header is called if the operation completed or failed; if it was aborted, as the cancellation
  -- asks, nothing outside happens, so that the task is not woken. The port is up.
  pub poll-dispatch-Woken :
      (spurious : Bool) (waker rounds : ℕ) (op : Operation) (sent : Code) (st : CompletionStatus)
      (c : Ctx W)
      → c.shared.port.pending < 2 ^ 63
      → phase (own_header c) ≡ submitted sent
      → st.header ≡ some c.handle.header
      → st.completion_key < reserved_ports
      → let (r, _, c') = poll os m spurious waker (running op) c in
        (r ≡ ok pending)
        × Cancelled os m waker c c'
        × Settled os st.outcome c.handle.header sent c'.shared.world
            (dispatch os rounds st (poll_status os st c'.shared).1)
  poll-dispatch-Woken spurious waker rounds op sent st c small flying own o =
      let (answer, _, left) = poll-Cancelled os m spurious waker op sent c small flying in
      (
        answer,
        left,
        dispatch-Settled os rounds c.handle.header sent st _ own o
            (ap phase (left.heap c.handle.header) ∙ flying),
      )
