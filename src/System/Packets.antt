-- ===== src/System/Packets.antt =====
-- The thread keeps the books: what a packet settles, and what a shutdown finds.
use aiocp.Prelude.{
  ℕ, suc, ◌+◌, ◌-◌, ◌%◌, ◌^◌, ◌<◌, ◌≤◌, ◌≡◌, ◌≢◌, refl, ap, ◌∙◌, inl, inr, Option, some, none, List,
  length, count, ◌==◌, leb, leb→lt, leb→le, arith, Bool-cases,
}
use aiocp.Io.{ok}
use native.Mathlib.Decide.{ℕ_discrete}
use aiocp.Os.{Os, Dequeued}
use aiocp.Kernel.{IsKernel, Removed, length-Removed, count-Removed}
use aiocp.Task.{unlock}
use aiocp.Shared.{Shared}
use aiocp.Port
use aiocp.Port.{
  CompletionStatus, CompletionOutcome, completed, aborted, errored, CompletionPoll, status,
  shutdown, status_of, poll_status, get_queued_completion_status, fetch_add, fetch_sub, isize_min,
  reserved_ports, shutdown_port, release, release_header, unlock_status, drop_status,
}
use aiocp.Background.{by_outcome, dispatch}
use aiocp.Background.Life.{Unlocked, by_outcome-Unlocked}
use aiocp.System.{System, HasRoom}
use aiocp.System.Invariant.{Books, Inv}

module _ {W : Type 0} (os : Os W) where
  -- The packet that a port has next, and the world without it.
  abbrev pub dequeued : Shared W → Dequeued
  dequeued s = (os.get_queued_completion_status s.port.raw s.world).0

  abbrev pub rest : Shared W → W
  rest s = (os.get_queued_completion_status s.port.raw s.world).1

  -- A poll of the port that returns a status.
  record Polled (st : CompletionStatus) (s : Shared W) : Type 0 where
    ordinary : (dequeued s).completion_key < reserved_ports
    header : st.header ≡ (dequeued s).overlapped
    left : (Port.poll os s).1 ≡ record s { world = rest s; port = fetch_sub 1 s.port }

  poll-Polled :
      (st : CompletionStatus) (s : Shared W) → (Port.poll os s).0 ≡ ok (status st) → Polled st s
  unfolding Port.poll poll_status get_queued_completion_status status_of
  poll-Polled st s e = elim (Bool-cases (leb reserved_ports (dequeued s).completion_key)) [
    | inl r ↦ elim (Bool-cases ((dequeued s).completion_key == shutdown_port)) [
      | inl t ↦ cc
      | inr t ↦ cc
    ]
    | inr r ↦ record { ordinary = leb→lt _ _ r; header = cc; left = rw r }
  ]

  -- A poll of the port that returns a shutdown.
  pub record Stopped (n : ℕ) (s : Shared W) : Type 0 where
    pub reserved : reserved_ports ≤ (dequeued s).completion_key
    pub count_read : n ≡ s.port.pending
    pub left :
        (Port.poll os s).1
        ≡ drop_status
            (dequeued s).overlapped
            (record s { world = rest s; port = fetch_add isize_min s.port })
    pub world : (Port.poll os s).1.world ≡ rest s
    pub counter : (Port.poll os s).1.port.pending ≡ (s.port.pending + 2 ^ 63) % 2 ^ 64

  drop_status-world :
      (header : Option ℕ) (s : Shared W)
      → ((drop_status header s).world ≡ s.world) × ((drop_status header s).port ≡ s.port)
  unfolding drop_status
  drop_status-world none s = (refl, refl)
  drop_status-world (some a) s = (refl, refl)

  pub poll-Stopped : (n : ℕ) (s : Shared W) → (Port.poll os s).0 ≡ ok (shutdown n) → Stopped n s
  unfolding Port.poll poll_status get_queued_completion_status status_of
  poll-Stopped n s e = elim (Bool-cases (leb reserved_ports (dequeued s).completion_key)) [
    | inl r ↦ elim (Bool-cases ((dequeued s).completion_key == shutdown_port)) [
      | inl t ↦ record {
        reserved = leb→le _ _ r;
        count_read = cc;
        left = rw (r, t) refl;
        world = rw (r, t) (drop_status-world (dequeued s).overlapped _).0;
        counter = rw (r, t) (ap (λ p. p.pending) (drop_status-world (dequeued s).overlapped _).1);
      }
      | inr t ↦ cc
    ]
    | inr r ↦ cc
  ]

module _ {W : Type 0} (os : Os W) (owed : W → List ℕ) (k : IsKernel os owed) where
  release_header-owes :
      (rounds a : ℕ) (s : Shared W) → owed (release_header os rounds a s).world ≡ owed s.world
  unfolding release_header
  release_header-owes rounds a s = elim (Bool-cases (unlock rounds (s.heap a)).1) [
    | inl e ↦ rw e (k.wake_keeps a s.world)
    | inr e ↦ rw e
  ]

  by_outcome-owes :
      (outcome : CompletionOutcome) (rounds a : ℕ) (s : Shared W)
      → owed (by_outcome os outcome rounds (some a) s).world ≡ owed s.world
  unfolding by_outcome release unlock_status
  by_outcome-owes aborted rounds a s = refl
  by_outcome-owes completed rounds a s = release_header-owes rounds a s
  by_outcome-owes errored rounds a s = release_header-owes rounds a s

  -- A packet of header `a`, once it is taken out of the queue, is dealt with.
  pub record Paid (a : ℕ) (s s' : Shared W) : Type 0 where
    pub port : s'.port ≡ s.port
    pub owes : owed s'.world ≡ owed s.world
    pub own : (s'.heap a).strong ≡ (s.heap a).strong - 1
    pub others : (b : ℕ) → b ≢ a → (s'.heap b).strong ≡ (s.heap b).strong

  drop-Paid :
      (rounds a : ℕ) (s s' : Shared W)
      → owed s'.world ≡ owed s.world
      → Unlocked rounds a s s'
      → Paid a s (drop_status (some a) s')
  unfolding drop_status unlock
  drop-Paid rounds a s s' o u = record {
    port = u.port;
    owes = o;
    own = rw u.heap (ground arith);
    others = λ b ne. rw u.heap (ground arith);
  }

  pub header-Paid :
      (rounds a : ℕ) (outcome : CompletionOutcome) (header : Option ℕ) (s : Shared W)
      → header ≡ some a
      → Paid a s (drop_status header (by_outcome os outcome rounds header s))
  header-Paid rounds a outcome header s h = rw h (
      drop-Paid rounds a s _ (by_outcome-owes outcome rounds a s)
        (by_outcome-Unlocked os outcome rounds a s))

  pub Paid-Books :
      (a : ℕ) (s : System W) (s1 s' : Shared W)
      → s1.heap ≡ s.shared.heap
      → Removed a (owed s.shared.world) (owed s1.world)
      → Paid a s1 s'
      → Books owed s
      → Books owed (record s { shared = s' })
  Paid-Books a s s1 s' same r d v = record {
    held = λ j b e.
        let counts = count-Removed b r in
        let now = ap (count b) d.owes in
        let old = v.held j b e in
        let before = ap (λ f. (f b).strong) same in
        elim (ℕ_discrete b a) [
          | yes p ↦ ground (arith, p, d.own, counts, now, old, before)
          | no p ↦ ground (arith, d.others b p, counts, now, old, before)
        ];
    distinct = v.distinct;
    known = λ b pos. v.known b (ground (arith, count-Removed b r, ap (count b) d.owes));
  }

  -- The state in which the thread has a status.
  abbrev taken : Shared W → Shared W
  taken s = (Port.poll os s).1

  dispatch-Paid :
      (rounds a : ℕ) (st : CompletionStatus) (s : Shared W)
      → st.header ≡ some a
      → Paid a s (dispatch os rounds st s)
  unfolding dispatch
  dispatch-Paid rounds a st s h = header-Paid rounds a st.outcome st.header s h

  -- What a packet that the thread deals with does to the debts.
  pub record Handled (s : Shared W) (s' : Shared W) : Type 0 where
    address : ℕ
    removed : Removed address (owed s.world) (owed (taken s).world)
    paid : Paid address (taken s) s'
    counter : (taken s).port.pending ≡ (s.port.pending + 2 ^ 64 - 1) % 2 ^ 64
    heap : (taken s).heap ≡ s.heap
    pub debt : length (owed s.world) ≡ suc (length (owed s'.world))

  pub dispatch-Handled :
      (rounds : ℕ) (st : CompletionStatus) (s : Shared W)
      → (Port.poll os s).0 ≡ ok (status st)
      → Handled s (dispatch os rounds st (taken s))
  dispatch-Handled rounds st s e =
      let p = poll-Polled os st s e in
      let q = k.ordinary_settles s.port.raw s.world p.ordinary in
      let d = dispatch-Paid rounds q.header st (taken s) (p.header ∙ q.overlapped) in
      let r : Removed q.header (owed s.world) (owed (taken s).world) =
        rw (ap (λ x. owed x.world) p.left) q.removed in
      record {
        address = q.header;
        removed = r;
        paid = d;
        counter = ap (λ x. x.port.pending) p.left;
        heap = ap (λ x. x.heap) p.left;
        debt = omega (arith, length-Removed r, ap length d.owes);
      }

  pub handled-Inv :
      (rounds : ℕ) (st : CompletionStatus) (s : System W)
      → HasRoom owed s
      → (Port.poll os s.shared).0 ≡ ok (status st)
      → Inv owed s
      → Inv owed (record s { shared = dispatch os rounds st (taken s.shared) })
  handled-Inv rounds st s room e v =
      let h = dispatch-Handled rounds st s.shared e in
      record {
        counted = omega (arith, h.counter, ap (λ x. x.pending) h.paid.port, h.debt, v.counted);
        books = Paid-Books h.address s (taken s.shared) _ h.heap h.removed h.paid v.books;
      }
