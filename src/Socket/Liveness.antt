-- ===== src/Socket/Liveness.antt =====
-- An accept that was submitted does not hang: once its packet is dealt with, its next poll ends.
use aiocp.Prelude.{
  ℕ, suc, ◌+◌, ◌%◌, ◌^◌, ◌<◌, ◌≡◌, ◌≢◌, refl, sym, ap, ◌∙◌, Bool, false, some, arith,
}
use aiocp.Prelude.Int.{pos, negsuc}
use mathlib.Core.Path.{subst}
use aiocp.Io.{Outcome, ok, err, panic, Poll, pending, ready, handle_io_pending}
use aiocp.Os.{Os, Memory}
use aiocp.Task.{header_lock}
use aiocp.Port.{CompletionStatus, poll_status, reserved_ports}
use aiocp.Pool.SocketPool.{Winsock}
use aiocp.Background.{dispatch}
use aiocp.Background.Life.{poll_status-ordinary}
use aiocp.Background.Liveness.{Done, dispatch-Done}
use aiocp.Handle.{Ctx, own_header}
use aiocp.Handle.Locking.{entered}
use aiocp.Socket.Defs.{Socket, SocketCtx}
use aiocp.Socket.Guard.{prepare, dropped, drop_guard, close, forget_or_drop, submit}
use aiocp.Socket.Accept
use aiocp.Socket.Accept.{accept_code}
use aiocp.Socket.Poll.{running, after, finish_accept, poll_accept, poll}
use aiocp.Socket.Frames.{Frames-prepare}
use aiocp.Socket.Connection.{heap_of, finish_accept-Made}
use aiocp.Socket.Balance.{Finishes, Made-Finishes}
use aiocp.Socket.Entry.{inside, poll_accept-open, poll_accept-completed}

module _ {W : Type 0} (os : Os W) (api : Winsock W) (m : Memory) where
  dropped-Finishes :
      (x : ℕ) (r : Outcome (Poll Socket)) (d : Outcome (Unit {0}) × SocketCtx W)
      → Finishes x r
      → Finishes x (dropped os r d).0
  unfolding dropped
  dropped-Finishes x (ok pending) d f = absurd f
  dropped-Finishes x (ok (ready s)) (ok _, c) f = f
  dropped-Finishes x (ok (ready s)) (err e, c) f = tt
  dropped-Finishes x (ok (ready s)) (panic, c) f = tt
  dropped-Finishes x (err y) (ok _, c) f = tt
  dropped-Finishes x (err y) (err e, c) f = tt
  dropped-Finishes x (err y) (panic, c) f = tt
  dropped-Finishes x panic (ok _, c) f = tt
  dropped-Finishes x panic (err e, c) f = tt
  dropped-Finishes x panic (panic, c) f = tt

  close-Finishes :
      (x : ℕ) (r : Outcome (Poll Socket)) (c : SocketCtx W)
      → Finishes x r
      → Finishes x (close os api (r, c)).0
  unfolding close
  close-Finishes x (ok pending) c f = absurd f
  close-Finishes x (ok (ready s)) c f = dropped-Finishes x (ok (ready s)) (drop_guard api c) f
  close-Finishes x (err e) c f = dropped-Finishes x (err e) (drop_guard api c) f
  close-Finishes x panic c f = dropped-Finishes x panic (drop_guard api c) f

  after-Finishes :
      (x : ℕ) (r : Outcome (Poll Socket) × SocketCtx W) → Finishes x r.0 → Finishes x (after r).0
  unfolding after
  after-Finishes x (ok pending, c) f = f
  after-Finishes x (ok (ready s), c) f = f
  after-Finishes x (err e, c) f = f
  after-Finishes x (panic, c) f = f

  poll-Finishes :
      (spurious : Bool) (waker address : ℕ) (c : SocketCtx W)
      → c.ctx.shared.port.pending < 2 ^ 63
      → (own_header c.ctx).lock ≡ negsuc accept_code
      → Finishes address (poll os api m spurious waker address running c).0
  unfolding poll
  poll-Finishes spurious waker address c small e =
      let b = record c { ctx = entered os spurious accept_code waker c.ctx } in
      let (r, b') = finish_accept os api m address b in
      after-Finishes address (poll_accept os api m spurious waker address c) (
        rw (poll_accept-completed os api m spurious waker address c small e) (
          close-Finishes address r b' (
            Made-Finishes os api m address (heap_of b address) r (heap_of b')
              (finish_accept-Made api address os m b))))

  -- What a poll has done that has submitted an accept.
  record Sent (c a : Ctx W) : Type 0 where
    lock : (own_header a).lock ≡ pos (suc accept_code)
    counter : a.shared.port.pending ≡ (c.shared.port.pending + 1) % 2 ^ 64
    header : a.handle.header ≡ c.handle.header

  dropped-apart :
      (r : Outcome (Poll Socket)) (d : Outcome (Unit {0}) × SocketCtx W) (a : SocketCtx W)
      → Finishes 0 r
      → dropped os r d ≢ (ok pending, a)
  dropped-apart r d a f e = subst (λ x. Finishes 0 x.0) e (dropped-Finishes 0 r d f)

  submitted_same :
      (r : Outcome (Unit {0})) (a b : SocketCtx W)
      → close os api (forget_or_drop api r b) ≡ (ok pending, a)
      → b ≡ a
  unfolding close forget_or_drop
  submitted_same (ok _) a b e = ap (λ x. x.1) e
  submitted_same (err x) a b e = absurd (dropped-apart (err x) _ a tt e)
  submitted_same panic a b e = absurd (dropped-apart panic _ a tt e)

  entered_lock :
      (waker : ℕ) (c : SocketCtx W)
      → (own_header c.ctx).lock ≡ pos 0
      → (own_header (prepare (inside os api m waker c)).ctx).lock ≡ pos (suc accept_code)
  unfolding prepare header_lock
  entered_lock waker c e = ground arith

  poll_accept-Sent :
      (waker address : ℕ) (c a : SocketCtx W)
      → c.ctx.shared.port.pending < 2 ^ 63
      → (own_header c.ctx).lock ≡ pos 0
      → poll_accept os api m false waker address c ≡ (ok pending, a)
      → Sent c.ctx a.ctx
  poll_accept-Sent waker address c a small e p =
      let b = prepare (inside os api m waker c) in
      let kept = (Frames-prepare os api m b.ctx.handle.header address).at b refl in
      let path : poll_accept os api m false waker address c
          ≡ close os api (
              forget_or_drop api (handle_io_pending (Accept.prepare api m b).0)
                (Accept.prepare api m b).1) =
        unfold submit in poll_accept-open os api m waker address c small e in
      let same =
        submitted_same (handle_io_pending (Accept.prepare api m b).0) a (Accept.prepare api m b).1
          (sym path ∙ p) in
      rw (← same) (record {
        lock = ap (λ h. h.lock) kept.own ∙ entered_lock waker c e;
        counter = ap (λ q. q.pending) kept.port ∙ unfold prepare in refl;
        header = kept.header ∙ unfold prepare in refl;
      })

  after-pending :
      (x : Outcome (Poll Socket) × SocketCtx W) (c : SocketCtx W)
      → after x ≡ (ok pending, running, c)
      → x ≡ (ok pending, c)
  unfolding after
  after-pending (ok pending, b) c e = ap (λ y. (ok pending, y.2)) e
  after-pending (ok (ready a), b) c e = cc
  after-pending (err x, b) c e = cc
  after-pending (panic, b) c e = cc

  -- Every submitted accept ends: a poll on an open lock that stays pending has submitted it (its
  -- exchange not failing by itself), and once the thread has dealt with the packet of the listener's
  -- header, under an ordinary key and with any outcome, the next poll ends with a connection whose
  -- header is at the address for it, an error or a panic. The port is up at the first poll.
  pub poll_accept-dispatch-Finishes :
      (waker later rounds first next : ℕ) (spurious : Bool) (st : CompletionStatus)
      (c c' : SocketCtx W)
      → c.ctx.shared.port.pending < 2 ^ 63
      → (own_header c.ctx).lock ≡ pos 0
      → poll os api m false waker first running c ≡ (ok pending, running, c')
      → st.header ≡ some c.ctx.handle.header
      → st.completion_key < reserved_ports
      → let s = dispatch os rounds st (poll_status os st c'.ctx.shared).1 in
        Finishes next
          (poll os api m spurious later next running
            (record c' { ctx = record c'.ctx { shared = s } })).0
  poll_accept-dispatch-Finishes waker later rounds first next spurious st c c' small e p own o =
      let sent =
        poll_accept-Sent waker first c c' small e
          (after-pending (poll_accept os api m false waker first c) c' (unfold poll in p)) in
      let before = c'.ctx.shared in
      let s = dispatch os rounds st (poll_status os st before).1 in
      let done : Done os m accept_code c'.ctx.handle.header before s =
        unfold dispatch in
        dispatch-Done os m rounds c'.ctx.handle.header accept_code st.outcome st.header before
          (poll_status os st before).1 (own ∙ ap some (sym sent.header)) sent.lock
          (poll_status-ordinary os st before o) in
      poll-Finishes spurious later next (record c' { ctx = record c'.ctx { shared = s } })
        (omega (arith, done.counter, sent.counter)) done.lock
