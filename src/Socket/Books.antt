-- ===== src/Socket/Books.antt =====
-- The books of a poll of an accept: the counter of the port goes up exactly when the system owes one
-- packet more for the listener.
mod Calls
use aiocp.Prelude.{
  ℕ, ◌^◌, ◌<◌, ◌≢◌, refl, ◌∙◌, inl, inr, Bool, true, false, some, List, arith, Bool-cases,
}
use aiocp.Io.{
  Outcome, ok, err, panic, Poll, pending, ready, OverlappedState, idle, in_progress,
  handle_io_pending,
}
use aiocp.Os.{Os, Memory}
use aiocp.Kernel.{IsKernel, IsWinsock}
use aiocp.Task.{LockResult, acquired, busy}
use aiocp.Port.{is_nonneg}
use aiocp.Pool.BufferPool
use aiocp.Pool.SocketPool
use aiocp.Pool.SocketPool.{Winsock, SocketPool}
use aiocp.Pool.SocketPool.Debts.{Owes, clear-Owes}
use aiocp.Handle.{Ctx, set_pool}
use aiocp.Handle.Guard.{locked, drop_overlapped, cancel_immediate}
use aiocp.Handle.Cancel.{cancel_if_pending-either}
use aiocp.Handle.Locking.{entered, reply, lock-granted, lock-refused}
use aiocp.Handle.Books.{
  Book, Inside, drop_overlapped-Book, return_permit-Book, entered-Inside, refused-Book,
}
use aiocp.Handle.Books as Base
use aiocp.Handle.Books.Rules.{queue_result, queue_same}
use aiocp.Socket.Defs.{Socket, SocketCtx, ◌>>=◌, on_ctx}
use aiocp.Socket.Guard.{
  prepare, cleared, discard, dropped, drop_guard, close, forget_or_drop, submit,
}
use aiocp.Socket.Accept
use aiocp.Socket.Accept.{accept_code}
use aiocp.Socket.Poll.{finish_accept, guarded, poll_accept}
use aiocp.Socket.Frames.{Frames-prepare, Frames-finish_accept}
use aiocp.Socket.Connection.{heap_of, finish_accept-Made}
use aiocp.Socket.Balance.{Finishes, Made-Finishes}
use Calls.{Queues-prepare, Quiet-finish_accept}

module _ {W : Type 0} (owed : W → List ℕ) where
  abbrev pub Books : Ctx W → Outcome (Poll Socket) × SocketCtx W → Type 0
  Books c (r, c') = Base.Books owed c (r, c'.ctx)

  cleared-Book :
      (now : List ℕ) (a b : Ctx W) (p : SocketPool) (r : Outcome (SocketPool × W))
      → Owes owed (owed b.shared.world) r
      → Book owed 1 now a b
      → Book owed 0 now a (cleared b p r).1.ctx
  unfolding cleared
  cleared-Book now a b p (ok (q, w)) o h =
      return_permit-Book owed now a _ (record { counter = h.counter; owes = o ∙ h.owes })
  cleared-Book now a b p (err e) o h = return_permit-Book owed now a b h
  cleared-Book now a b p panic o h = return_permit-Book owed now a b h

module _ {W : Type 0} (os : Os W) (api : Winsock W) (m : Memory) (owed : W → List ℕ)
    (k : IsKernel os owed) (kw : IsWinsock api owed) where
  drop_guard-Book :
      (now : List ℕ) (a : Ctx W) (b : SocketCtx W)
      → Book owed 1 now a b.ctx
      → Book owed 0 now a (drop_guard api b).1.ctx
  unfolding drop_guard
  drop_guard-Book now a b h =
      let b' = set_pool (BufferPool.clear b.ctx.handle.pool) b.ctx in
      cleared-Book owed now a b' b.sockets (SocketPool.clear api b.sockets b'.shared.world)
        (clear-Owes api owed kw b.sockets b'.shared.world)
        (record { counter = h.counter; owes = h.owes })

  discard-Book :
      (now : List ℕ) (s : Socket) (a : Ctx W) (c : SocketCtx W)
      → Book owed 0 now a c.ctx
      → Book owed 0 now a (discard os s c).ctx
  unfolding discard cancel_immediate
  discard-Book now s a c h = elim (cancel_if_pending-either os (record c.ctx { handle = s.base })) [
    | inl p ↦ rw p (record {
      counter = h.counter;
      owes = k.cancel_io_ex_keeps s.base.raw s.base.header c.ctx.shared.world ∙ h.owes;
    })
    | inr p ↦ rw p (record { counter = h.counter; owes = h.owes })
  ]

  dropped-Books :
      (x : ℕ) (r : Outcome (Poll Socket)) (a : Ctx W) (d : Outcome (Unit {0}) × SocketCtx W)
      → Finishes x r
      → Book owed 0 (owed a.shared.world) a d.1.ctx
      → Books owed a (dropped os r d)
  unfolding dropped
  dropped-Books x (ok pending) a d f h = absurd f
  dropped-Books x (ok (ready s)) a (ok _, c) f h = h
  dropped-Books x (ok (ready s)) a (err e, c) f h = discard-Book (owed a.shared.world) s a c h
  dropped-Books x (ok (ready s)) a (panic, c) f h = discard-Book (owed a.shared.world) s a c h
  dropped-Books x (err y) a (ok _, c) f h = h
  dropped-Books x (err y) a (err e, c) f h = h
  dropped-Books x (err y) a (panic, c) f h = h
  dropped-Books x panic a (ok _, c) f h = h
  dropped-Books x panic a (err e, c) f h = h
  dropped-Books x panic a (panic, c) f h = h

  close-Books :
      (x : ℕ) (r : Outcome (Poll Socket)) (a : Ctx W) (b : SocketCtx W)
      → Finishes x r
      → Book owed 1 (owed a.shared.world) a b.ctx
      → Books owed a (close os api (r, b))
  unfolding close
  close-Books x (ok pending) a b f h = absurd f
  close-Books x (ok (ready s)) a b f h =
      dropped-Books x (ok (ready s)) a (drop_guard api b) f (drop_guard-Book _ a b h)
  close-Books x (err e) a b f h =
      dropped-Books x (err e) a (drop_guard api b) tt (drop_guard-Book _ a b h)
  close-Books x panic a b f h =
      dropped-Books x panic a (drop_guard api b) tt (drop_guard-Book _ a b h)

  submit-Books :
      (r : Outcome (Unit {0})) (a : Ctx W) (b : SocketCtx W)
      → Book owed 1 (queue_result r a.handle.header (owed a.shared.world)) a b.ctx
      → Books owed a (close os api (forget_or_drop api r b))
  unfolding close forget_or_drop
  submit-Books (ok _) a b h = inr h
  submit-Books (err e) a b h =
      let b' = record b { ctx = drop_overlapped b.ctx } in
      dropped-Books 0 (err e) a (drop_guard api b') tt
        (drop_guard-Book _ a b' (drop_overlapped-Book owed _ a b.ctx h))
  submit-Books panic a b h =
      let b' = record b { ctx = drop_overlapped b.ctx } in
      dropped-Books 0 panic a (drop_guard api b') tt
        (drop_guard-Book _ a b' (drop_overlapped-Book owed _ a b.ctx h))

  guarded-Books :
      (address : ℕ) (state : OverlappedState) (a : Ctx W) (b : SocketCtx W)
      → address ≢ b.ctx.handle.header
      → Inside owed a b.ctx
      → Books owed a (guarded os api m address (some state) b)
  unfolding guarded submit prepare
  guarded-Books address idle a b ne h =
      let b' = prepare b in
      let (r, c) = Accept.prepare api m b' in
      submit-Books (handle_io_pending r) a c (record {
        counter = ground (
          arith,
          ((Frames-prepare os api m b'.ctx.handle.header address).at b' refl).port,
          h.counter,
        );
        owes =
            (Queues-prepare api owed kw m).books b'
            ∙ queue_same (handle_io_pending r) _ _ _ _ h.header h.owes;
      })
  guarded-Books address in_progress a b ne h =
      let (r, c) = finish_accept os api m address b in
      close-Books address r a c
        (Made-Finishes os api m address (heap_of b address) r (heap_of c)
          (finish_accept-Made api address os m b))
        (record {
          counter = ground (
            arith,
            ((Frames-finish_accept os api m b.ctx.handle.header address ne).at b refl).port,
            h.counter,
          );
          owes = ((Quiet-finish_accept api owed kw os m k address).at b).owes ∙ h.owes;
        })

  locked-Books :
      (address : ℕ) (r : LockResult) (a : SocketCtx W) (b : Ctx W)
      → address ≢ b.handle.header
      → Inside owed a.ctx b
      → Books owed a.ctx ((on_ctx (λ _. locked os r b) >>= guarded os api m address) a)
  unfolding ◌>>=◌ on_ctx locked guarded cancel_immediate
  locked-Books address (acquired state) a b ne h =
      guarded-Books address state a.ctx (record a { ctx = b }) ne h
  locked-Books address (busy true) a b ne h = inl (
      return_permit-Book owed (owed a.ctx.shared.world) a.ctx (cancel_immediate os b) (record {
        counter = h.counter;
        owes = k.cancel_io_ex_keeps b.handle.raw b.handle.header b.shared.world ∙ h.owes;
      }))
  locked-Books address (busy false) a b ne h = inl (
      return_permit-Book owed (owed a.ctx.shared.world) a.ctx b
        (record { counter = h.counter; owes = h.owes }))

  -- On a system that keeps its debts: after a poll of an accept that is pending, either nothing has
  -- moved, or the counter is one up and one packet more is owed for the listener; after any other,
  -- nothing has moved.
  pub poll_accept-Books :
      (spurious : Bool) (waker address : ℕ) (c : SocketCtx W)
      → c.ctx.shared.port.pending < 2 ^ 64
      → address ≢ c.ctx.handle.header
      → Books owed c.ctx (poll_accept os api m spurious waker address c)
  unfolding poll_accept ◌>>=◌ on_ctx
  poll_accept-Books spurious waker address c small ne =
      elim (Bool-cases (is_nonneg c.ctx.shared.port.pending)) [
        | inl e ↦ rw (lock-granted os spurious accept_code waker c.ctx e) (
            locked-Books address (reply spurious accept_code c.ctx) c
              (entered os spurious accept_code waker c.ctx) ne
              (entered-Inside os owed k spurious accept_code waker c.ctx))
        | inr e ↦
            rw (lock-refused os spurious accept_code waker c.ctx e)
              (refused-Book os owed k c.ctx small)
      ]
