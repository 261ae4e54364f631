-- ===== src/Background/Liveness.antt =====
-- An operation that was submitted does not hang: once its packet is dealt with, its next poll ends.
use aiocp.Prelude.{
  ℕ, suc, ◌+◌, ◌-◌, ◌%◌, ◌^◌, ◌<◌, ◌≡◌, refl, sym, ap, ◌∙◌, Bool, false, Option, some, arith,
  lt→ltb,
}
use aiocp.Prelude.Int.{pos, negsuc}
use aiocp.Io.{Code, Outcome, ok, err, panic, Poll, pending, ready, idle, handle_io_pending}
use aiocp.Os.{Os, Memory}
use aiocp.Task.{Header, header_lock, acquired, unlock}
use aiocp.Task.Rounds.{unlock_loop-replicate}
use aiocp.Shared.{Shared}
use aiocp.Port.{
  CompletionOutcome, CompletionStatus, poll_status, reserved_ports, drop_status, fetch_sub,
}
use aiocp.Background.{dispatch, by_outcome}
use aiocp.Background.Life.{Unlocked, by_outcome-Unlocked, poll_status-ordinary}
use aiocp.Handle.{Ctx, ◌>>=◌, own_header}
use aiocp.Handle.Guard.{locked, with_guard, submit, close, forget_or_drop, prepare}
use aiocp.Handle.Operation.{Operation, Output, code, prepare as prepare_operation}
use aiocp.Handle.Poll.{running, guarded, after, poll, poll_operation, finish_operation}
use aiocp.Handle.Locking.{entered, lock-granted}
use aiocp.Handle.Frames.{Frames-prepare}
use aiocp.Handle.Balance.{Finishes, finish_operation-Finishes}
use aiocp.Handle.Reading.{header_lock-completed}

module _ {W : Type 0} where
  close-Finishes :
      {A : Type 0} (r : Outcome (Poll A)) (c : Ctx W) → Finishes r → Finishes (close (r, c)).0
  unfolding close
  close-Finishes (ok pending) c f = absurd f
  close-Finishes (ok (ready a)) c f = tt
  close-Finishes (err e) c f = tt
  close-Finishes panic c f = tt

  after-Finishes :
      (op : Operation) (r : Outcome (Poll Output)) (c : Ctx W)
      → Finishes r
      → Finishes (after op (r, c)).0
  unfolding after
  after-Finishes op (ok pending) c f = absurd f
  after-Finishes op (ok (ready a)) c f = tt
  after-Finishes op (err e) c f = tt
  after-Finishes op panic c f = tt

module _ {W : Type 0} (os : Os W) (m : Memory) where
  poll_operation-Finishes :
      (spurious : Bool) (waker : ℕ) (op : Operation) (c : Ctx W)
      → c.shared.port.pending < 2 ^ 63
      → (own_header c).lock ≡ negsuc (code op)
      → Finishes (poll_operation os m spurious waker op c).0
  unfolding poll_operation ◌>>=◌ locked guarded with_guard
  poll_operation-Finishes spurious waker op c small e =
      rw (lock-granted os spurious (code op) waker c (lt→ltb _ _ small)) (
        rw (header_lock-completed spurious (code op) (own_header c) e) (
          close-Finishes (finish_operation os m op (entered os spurious (code op) waker c)).0
            (finish_operation os m op (entered os spurious (code op) waker c)).1
            (finish_operation-Finishes os m op (entered os spurious (code op) waker c))))

  -- A poll of an operation that the header holds as completed ends with a result, an error or a
  -- panic: it does not stay pending, whatever happens to its own exchange.
  pub poll-Finishes :
      (spurious : Bool) (waker : ℕ) (op : Operation) (c : Ctx W)
      → c.shared.port.pending < 2 ^ 63
      → (own_header c).lock ≡ negsuc (code op)
      → Finishes (poll os m spurious waker (running op) c).0
  unfolding poll
  poll-Finishes spurious waker op c small e =
      after-Finishes op (poll_operation os m spurious waker op c).0
        (poll_operation os m spurious waker op c).1
        (poll_operation-Finishes spurious waker op c small e)

  header_lock-open :
      (n : Code) (h : Header)
      → h.lock ≡ pos 0
      → ((header_lock false n h).0 ≡ acquired idle) × ((header_lock false n h).1.lock ≡ pos (suc n))
  unfolding header_lock
  header_lock-open n h e = ground arith

  submitted_same :
      (r : Outcome (Unit {0})) (a b : Ctx W)
      → close {A = Output} (forget_or_drop r b) ≡ (ok pending, a)
      → b ≡ a
  unfolding close forget_or_drop
  submitted_same (ok _) a b e = ap (λ x. x.1) e
  submitted_same (err x) a b e = cc
  submitted_same panic a b e = cc

  -- What a poll has done that has submitted its operation.
  record Sent (n : Code) (c a : Ctx W) : Type 0 where
    lock : (own_header a).lock ≡ pos (suc n)
    counter : a.shared.port.pending ≡ (c.shared.port.pending + 1) % 2 ^ 64
    header : a.handle.header ≡ c.handle.header

  entered_lock :
      (n : Code) (waker : ℕ) (c : Ctx W)
      → (own_header c).lock ≡ pos 0
      → (own_header (prepare (entered os false n waker c))).lock ≡ pos (suc n)
  unfolding prepare header_lock
  entered_lock n waker c e = ground arith

  poll_operation-Sent :
      (waker : ℕ) (op : Operation) (c a : Ctx W)
      → c.shared.port.pending < 2 ^ 63
      → (own_header c).lock ≡ pos 0
      → poll_operation os m false waker op c ≡ (ok pending, a)
      → Sent (code op) c a
  poll_operation-Sent waker op c a small e p =
      let b = prepare (entered os false (code op) waker c) in
      let kept = (Frames-prepare os m op).at b in
      let path : poll_operation os m false waker op c
          ≡ close (
              forget_or_drop (handle_io_pending (prepare_operation os m op b).0)
                (prepare_operation os m op b).1) =
        unfold poll_operation ◌>>=◌ locked guarded with_guard submit in
        rw (lock-granted os false (code op) waker c (lt→ltb _ _ small))
          (rw (header_lock-open (code op) (own_header c) e).0) in
      let same =
        submitted_same (handle_io_pending (prepare_operation os m op b).0) a
          (prepare_operation os m op b).1 (sym path ∙ p) in
      rw (← same) (record {
        lock = kept.lock ∙ entered_lock (code op) waker c e;
        counter = ap (λ q. q.pending) kept.port ∙ unfold prepare in refl;
        header = kept.header ∙ unfold prepare in refl;
      })

  after-pending :
      (op : Operation) (x : Outcome (Poll Output) × Ctx W) (c : Ctx W)
      → after op x ≡ (ok pending, running op, c)
      → x ≡ (ok pending, c)
  unfolding after
  after-pending op (ok pending, b) c e = ap (λ y. (ok pending, y.2)) e
  after-pending op (ok (ready a), b) c e = cc
  after-pending op (err x, b) c e = cc
  after-pending op (panic, b) c e = cc

  -- The packet of the operation is dealt with.
  pub record Done (n : Code) (h : ℕ) (before after' : Shared W) : Type 0 where
    pub lock : (after'.heap h).lock ≡ negsuc n
    pub counter : after'.port.pending ≡ (before.port.pending + 2 ^ 64 - 1) % 2 ^ 64

  drop-Done :
      (rounds h : ℕ) (n : Code) (s s1 s2 : Shared W)
      → (s.heap h).lock ≡ pos (suc n)
      → s1 ≡ record s { port = fetch_sub 1 s.port }
      → Unlocked rounds h s1 s2
      → Done n h s (drop_status (some h) s2)
  unfolding drop_status unlock
  drop-Done rounds h n s s1 s2 flying e u = record {
    lock = rw u.heap (rw e (ground (arith, unlock_loop-replicate rounds (s.heap h).lock)));
    counter = ground (arith, u.port, e);
  }

  pub dispatch-Done :
      (rounds h : ℕ) (n : Code) (outcome : CompletionOutcome) (header : Option ℕ) (s s1 : Shared W)
      → header ≡ some h
      → (s.heap h).lock ≡ pos (suc n)
      → s1 ≡ record s { port = fetch_sub 1 s.port }
      → Done n h s (drop_status header (by_outcome os outcome rounds header s1))
  dispatch-Done rounds h n outcome header s s1 own flying e =
      rw own (drop-Done rounds h n s s1 _ flying e (by_outcome-Unlocked os outcome rounds h s1))

  -- Every submitted operation ends: a poll on an open lock that stays pending has submitted it (its
  -- exchange not failing by itself), and once the thread has dealt with the packet of the header,
  -- under an ordinary key and with any outcome, the next poll ends with a result, an error or a
  -- panic. The port is up at the first poll.
  pub poll-dispatch-Finishes :
      (waker later rounds : ℕ) (spurious : Bool) (op : Operation) (st : CompletionStatus)
      (c c' : Ctx W)
      → c.shared.port.pending < 2 ^ 63
      → (own_header c).lock ≡ pos 0
      → poll os m false waker (running op) c ≡ (ok pending, running op, c')
      → st.header ≡ some c.handle.header
      → st.completion_key < reserved_ports
      → let s = dispatch os rounds st (poll_status os st c'.shared).1 in
        Finishes (poll os m spurious later (running op) (record c' { shared = s })).0
  poll-dispatch-Finishes waker later rounds spurious op st c c' small e p own o =
      let sent =
        poll_operation-Sent waker op c c' small e
          (after-pending op (poll_operation os m false waker op c) c' (unfold poll in p)) in
      let done : Done (code op) c'.handle.header c'.shared
          (dispatch os rounds st (poll_status os st c'.shared).1) =
        unfold dispatch in
        dispatch-Done rounds c'.handle.header (code op) st.outcome st.header c'.shared
          (poll_status os st c'.shared).1 (own ∙ ap some (sym sent.header)) sent.lock
          (poll_status-ordinary os st c'.shared o) in
      poll-Finishes spurious later op
        (record c' { shared = dispatch os rounds st (poll_status os st c'.shared).1 })
        (omega (arith, done.counter, sent.counter)) done.lock
