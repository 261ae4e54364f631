-- ===== src/Background/Life.antt =====
-- The life of one operation through its parts: the poll that submits it takes a permit and a count,
-- and the thread that deals with its packet gives both back.
use aiocp.Prelude.{
  ℕ, ◌^◌, ◌<◌, ◌≡◌, ◌≢◌, refl, ◌⊎◌, inl, inr, Bool, false, Option, some, arith, Bool-cases, lt→leb,
}
use aiocp.Prelude.Int.{is_pos}
use aiocp.Io.{Outcome, ok, err, panic, Poll, pending, ready}
use aiocp.Os.{Os, Memory}
use aiocp.Task.{unlock}
use aiocp.Task.Rounds.{unlock_loop-replicate}
use aiocp.Shared.{Shared, update}
use aiocp.Port.{
  CompletionStatus, CompletionOutcome, completed, aborted, errored, fetch_sub, poll_status,
  reserved_ports, release, release_header, unlock_status, drop_status,
}
use aiocp.Background.{by_outcome, dispatch}
use aiocp.Handle.{Ctx, own_header}
use aiocp.Handle.Poll.{State, poll}
use aiocp.Handle.Balance.{Moved, Ends, poll-Ends}

-- A header is written back unlocked, and the rest stays.
pub record Unlocked {W : Type 0} (spurious a : ℕ) (s s' : Shared W) : Type 0 where
  pub heap : s'.heap ≡ update s.heap a (unlock spurious (s.heap a)).0
  pub port : s'.port ≡ s.port

-- The shared state has, apart from the world outside, what it had before the operation: the port, the
-- count of the header, and all other headers; and the header is not in flight.
pub record Returned {W : Type 0} (c : Ctx W) (s : Shared W) : Type 0 where
  pub port : s.port ≡ c.shared.port
  pub strong : (s.heap c.handle.header).strong ≡ (own_header c).strong
  pub settled : is_pos (s.heap c.handle.header).lock ≡ false
  pub others : (b : ℕ) → b ≢ c.handle.header → s.heap b ≡ c.shared.heap b

module _ {W : Type 0} (os : Os W) where
  release-Unlocked :
      (spurious a : ℕ) (s : Shared W) → Unlocked spurious a s (release os spurious (some a) s)
  unfolding release release_header
  release-Unlocked spurious a s = elim (Bool-cases (unlock spurious (s.heap a)).1) [
    | inl e ↦ rw e (record { heap = refl; port = refl })
    | inr e ↦ rw e (record { heap = refl; port = refl })
  ]

  pub by_outcome-Unlocked :
      (outcome : CompletionOutcome) (spurious a : ℕ) (s : Shared W)
      → Unlocked spurious a s (by_outcome os outcome spurious (some a) s)
  unfolding by_outcome unlock_status
  by_outcome-Unlocked aborted spurious a s = record { heap = refl; port = refl }
  by_outcome-Unlocked completed spurious a s = release-Unlocked spurious a s
  by_outcome-Unlocked errored spurious a s = release-Unlocked spurious a s

  pub poll_status-ordinary :
      (st : CompletionStatus) (s : Shared W)
      → st.completion_key < reserved_ports
      → (poll_status os st s).1 ≡ record s { port = fetch_sub 1 s.port }
  unfolding poll_status
  poll_status-ordinary st s o = rw (lt→leb reserved_ports st.completion_key o)

  drop-Returned :
      (spurious : ℕ) (c c' : Ctx W) (s s' : Shared W)
      → c.shared.port.pending < 2 ^ 64
      → Moved 1 1 c c'
      → s ≡ record c'.shared { port = fetch_sub 1 c'.shared.port }
      → Unlocked spurious c.handle.header s s'
      → Returned c (drop_status (some c.handle.header) s')
  unfolding drop_status unlock
  drop-Returned spurious c c' s s' small h e u = record {
    port = ground (arith, e, u.port, h.permits_out, h.port_raw);
    strong = rw u.heap (rw e (ground (arith, h.counts_out, h.header)));
    settled = rw u.heap (
        rw e
          (ground (arith, unlock_loop-replicate spurious (c'.shared.heap c.handle.header).lock)));
    others = λ b ne. rw u.heap (rw e (ground (arith, h.others b ne)));
  }

  by_outcome-Returned :
      (spurious : ℕ) (outcome : CompletionOutcome) (header : Option ℕ) (c c' : Ctx W) (s : Shared W)
      → c.shared.port.pending < 2 ^ 64
      → header ≡ some c.handle.header
      → Moved 1 1 c c'
      → s ≡ record c'.shared { port = fetch_sub 1 c'.shared.port }
      → Returned c (drop_status header (by_outcome os outcome spurious header s))
  by_outcome-Returned spurious outcome header c c' s small own h e = rw own (
      drop-Returned spurious c c' s _ small h e
        (by_outcome-Unlocked outcome spurious c.handle.header s))

  -- Deal with the packet of an operation that was submitted.
  pub dispatch-Returned :
      (spurious : ℕ) (st : CompletionStatus) (c c' : Ctx W)
      → c.shared.port.pending < 2 ^ 64
      → st.header ≡ some c.handle.header
      → st.completion_key < reserved_ports
      → Moved 1 1 c c'
      → Returned c (dispatch os spurious st (poll_status os st c'.shared).1)
  unfolding dispatch
  dispatch-Returned spurious st c c' small own o h =
      by_outcome-Returned spurious st.outcome st.header c c' (poll_status os st c'.shared).1 small
        own h (poll_status-ordinary st c'.shared o)

  Ends-cases :
      {A : Type 0} (r : Outcome (Poll A)) (c c' : Ctx W)
      → Ends c (r, c')
      → Moved 0 0 c c' ⊎ Moved 1 1 c c'
  Ends-cases (ok pending) c c' h = h
  Ends-cases (ok (ready x)) c c' h = inl h
  Ends-cases (err e) c c' h = inl h
  Ends-cases panic c c' h = inl h

module _ {W : Type 0} (os : Os W) (m : Memory) where
  -- For any operation: a poll keeps no permit and no count, or else, once the thread has polled and
  -- dealt with a packet of its header under an ordinary key, whatever the outcome, the counter of the
  -- port, the count of the header and the other headers are as before the poll, and the header is
  -- not in flight.
  pub poll-Returned :
      (spurious : Bool) (waker rounds : ℕ) (s : State) (st : CompletionStatus) (c : Ctx W)
      → c.shared.port.pending < 2 ^ 64
      → st.header ≡ some c.handle.header
      → st.completion_key < reserved_ports
      → let (r, _, c') = poll os m spurious waker s c in
        Moved 0 0 c c' ⊎ Returned c (dispatch os rounds st (poll_status os st c'.shared).1)
  poll-Returned spurious waker rounds s st c small own o =
      let (r, t, c') = poll os m spurious waker s c in
      elim (Ends-cases os r c c' (poll-Ends os m spurious waker s c small)) [
        | inl h ↦ inl h
        | inr h ↦ inr (dispatch-Returned os rounds st c c' small own o h)
      ]
