-- ===== src/System/Closing/Drained.antt =====
-- A round of the thread after the shutdown: it consumes one completion that was owed.
use aiocp.Prelude.{
  ℕ, zero, suc, ◌<◌, ◌≤◌, ◌≡◌, refl, sym, ap, ◌∙◌, inl, inr, true, false, Option, some, List,
  length, leb, leb→le, leb→lt, ◌==◌, arith, Bool-cases,
}
use aiocp.Io.{Outcome, ok, err, reserved_status}
use aiocp.Os.{Os}
use aiocp.Kernel.{IsKernel, Removed, length-Removed}
use aiocp.Shared.{Shared, with_world}
use aiocp.Port.{
  CompletionStatus, completed, reserved_ports, shutdown_port, status_of, drop_status,
  get_queued_completion_status, poll_during_shutdown,
}
use aiocp.Background.{by_outcome}
use aiocp.System.{System}
use aiocp.System.Invariant.{Books}
use aiocp.System.Packets.{dequeued, rest, Paid, header-Paid, Paid-Books}
use aiocp.System.Closing.{consume}

module _ {W : Type 0} (os : Os W) (owed : W → List ℕ) (k : IsKernel os owed) where
  -- A status was dequeued past any shutdowns: one completion less is owed.
  pub record Found (st : CompletionStatus) (s s' : Shared W) : Type 0 where
    pub address : ℕ
    pub header : st.header ≡ some address
    pub heap : s'.heap ≡ s.heap
    pub port : s'.port ≡ s.port
    pub removed : Removed address (owed s.world) (owed s'.world)

  abbrev skipped : Shared W → Shared W
  skipped s = with_world (rest os s) s

  skip-Found :
      (st : CompletionStatus) (s s' : Shared W)
      → reserved_ports ≤ (dequeued os s).completion_key
      → Found st (skipped s) s'
      → Found st s s'
  skip-Found st s s' r f = record {
    address = f.address;
    header = f.header;
    heap = f.heap;
    port = f.port;
    removed = rw (← k.reserved_keeps s.port.raw s.world r) f.removed;
  }

  first-Found :
      (s : Shared W)
      → (dequeued os s).completion_key < reserved_ports
      → Found (status_of os (dequeued os s)) s (skipped s)
  unfolding status_of
  first-Found s o =
      let q = k.ordinary_settles s.port.raw s.world o in
      record {
        address = q.header;
        header = q.overlapped;
        heap = refl;
        port = refl;
        removed = q.removed;
      }

  drop_status-null :
      (s : Shared W)
      → reserved_ports ≤ (dequeued os s).completion_key
      → drop_status (dequeued os s).overlapped (skipped s) ≡ skipped s
  unfolding drop_status
  drop_status-null s r = rw (k.reserved_null s.port.raw s.world r) refl

  round-skip :
      (fuel : ℕ) (s : Shared W)
      → leb reserved_ports (dequeued os s).completion_key ≡ true
      → (dequeued os s).completion_key == shutdown_port ≡ true
      → poll_during_shutdown os (suc fuel) s ≡ poll_during_shutdown os fuel (skipped s)
  unfolding poll_during_shutdown get_queued_completion_status status_of
  round-skip fuel s r t =
      rw (r, t) (ap (poll_during_shutdown os fuel) (drop_status-null s (leb→le _ _ r)))

  round-refused :
      (fuel : ℕ) (s : Shared W)
      → leb reserved_ports (dequeued os s).completion_key ≡ true
      → (dequeued os s).completion_key == shutdown_port ≡ false
      → (poll_during_shutdown os (suc fuel) s).0 ≡ some (err reserved_status)
  unfolding poll_during_shutdown get_queued_completion_status status_of
  round-refused fuel s r t = rw (r, t) refl

  round-first :
      (fuel : ℕ) (s : Shared W)
      → leb reserved_ports (dequeued os s).completion_key ≡ false
      → poll_during_shutdown os (suc fuel) s ≡ (some (ok (status_of os (dequeued os s))), skipped s)
  unfolding poll_during_shutdown get_queued_completion_status status_of
  round-first fuel s r = rw r refl

  abbrev status_in : Option (Outcome CompletionStatus) → CompletionStatus → CompletionStatus
  status_in (some (ok st)) other = st
  status_in _ other = other

  pub poll_during_shutdown-Found :
      (fuel : ℕ) (st : CompletionStatus) (s : Shared W)
      → (poll_during_shutdown os fuel s).0 ≡ some (ok st)
      → Found st s (poll_during_shutdown os fuel s).1
  poll_during_shutdown-Found zero st s e = unfold poll_during_shutdown in cc
  poll_during_shutdown-Found (suc fuel) st s e =
      elim (Bool-cases (leb reserved_ports (dequeued os s).completion_key)) [
        | inl r ↦ elim (Bool-cases ((dequeued os s).completion_key == shutdown_port)) [
          | inl t ↦
              let path = round-skip fuel s r t in
              rw path (
                skip-Found st s _ (leb→le _ _ r)
                  (poll_during_shutdown-Found fuel st (skipped s) (sym (ap (λ x. x.0) path) ∙ e)))
          | inr t ↦ cc (round-refused fuel s r t)
        ]
        | inr r ↦
            let path = round-first fuel s r in
            let same : status_of os (dequeued os s) ≡ st =
              ap (λ x. status_in x st) (sym (ap (λ x. x.0) path) ∙ e) in
            rw path (rw (← same) (first-Found s (leb→lt _ _ r)))
      ]

  -- What a round does: a completion less is owed, and its header has a count less.
  pub record Consumed (s : System W) (s' : Shared W) : Type 0 where
    pub port : s'.port ≡ s.shared.port
    pub debt : length (owed s.shared.world) ≡ suc (length (owed s'.world))
    pub books : Books owed s → Books owed (record s { shared = s' })

  consume-Paid :
      (rounds a : ℕ) (st : CompletionStatus) (s : Shared W)
      → st.header ≡ some a
      → Paid os owed k a s (consume os rounds st s)
  unfolding by_outcome
  consume-Paid rounds a st s h = header-Paid os owed k rounds a completed st.header s h

  pub consume-Consumed :
      (fuel rounds : ℕ) (st : CompletionStatus) (s : System W)
      → (poll_during_shutdown os fuel s.shared).0 ≡ some (ok st)
      → Consumed s (consume os rounds st (poll_during_shutdown os fuel s.shared).1)
  consume-Consumed fuel rounds st s e =
      let f = poll_during_shutdown-Found fuel st s.shared e in
      let paid =
        consume-Paid rounds f.address st (poll_during_shutdown os fuel s.shared).1 f.header in
      record {
        port = paid.port ∙ f.port;
        debt = omega (arith, length-Removed f.removed, ap length paid.owes);
        books = Paid-Books os owed k f.address s _ _ f.heap f.removed paid;
      }
