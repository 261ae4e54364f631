-- ===== src/Socket/Accounts.antt =====
-- What a poll of an accept has moved, in the port and in the system, taken together.
use aiocp.Prelude.{ℕ, ◌^◌, ◌<◌, ◌≢◌, refl, ◌⊎◌, inl, inr, Bool, List, ◌∷◌, arith}
use aiocp.Io.{Outcome, ok, err, panic, Poll, pending, ready}
use aiocp.Os.{Os, Memory}
use aiocp.Kernel.{IsKernel, IsWinsock}
use aiocp.Task.{Header}
use aiocp.Shared.{with_header}
use aiocp.Pool.SocketPool.{Winsock}
use aiocp.Handle.{Ctx}
use aiocp.Handle.Accounts.{Accounts}
use aiocp.Handle.Balance as Base
use aiocp.Handle.Books.{Book}
use aiocp.Socket.{Socket, SocketCtx}
use aiocp.Socket.Poll.{State, running, complete, after, poll_accept, poll}
use aiocp.Socket.Balance.{Moved, Moved-refl, Ends, poll_accept-Ends}
use aiocp.Socket.Connection.{heap_of}
use aiocp.Socket.Placed.{Placed, poll_accept-Placed}
use aiocp.Socket.Books.{Books, poll_accept-Books}

module _ {W : Type 0} where
  -- With the header at an address as it was before.
  abbrev pub restored : ℕ → Ctx W → Ctx W → Ctx W
  restored a c c' = record c' { shared = with_header a (c.shared.heap a) c'.shared }

  Moved-restored :
      (a permits counts : ℕ) (c c' : Ctx W)
      → a ≢ c.handle.header
      → Moved a permits counts c c'
      → Base.Moved permits counts c (restored a c c')
  Moved-restored a permits counts c c' ne h = record {
    permits_out = h.permits_out;
    counts_out = ground (arith, h.counts_out, h.header, ne);
    port_raw = h.port_raw;
    raw = h.raw;
    header = h.header;
    others = λ b apart. ground (arith, h.others b apart);
  }

module _ {W : Type 0} (owed : W → List ℕ) (a : ℕ) where
  two-Accounts :
      (c c' : Ctx W)
      → a ≢ c.handle.header
      → Moved a 0 0 c c' ⊎ Moved a 1 1 c c'
      → Book owed 0 (owed c.shared.world) c c'
        ⊎ Book owed 1 (c.handle.header ∷ owed c.shared.world) c c'
      → Accounts owed c (restored a c c')
  two-Accounts c c' ne (inl h) (inl k) = inl (Moved-restored a 0 0 c c' ne h, k.owes)
  two-Accounts c c' ne (inr h) (inr k) = inr (Moved-restored a 1 1 c c' ne h, k.owes)
  two-Accounts c c' ne (inl h) (inr k) = absurd (omega (arith, h.permits_out, k.counter))
  two-Accounts c c' ne (inr h) (inl k) = absurd (omega (arith, h.permits_out, k.counter))

  Ends-Accounts :
      (r : Outcome (Poll Socket)) (c c' : SocketCtx W)
      → a ≢ c.ctx.handle.header
      → Ends a c (r, c')
      → Books owed c.ctx (r, c')
      → Accounts owed c.ctx (restored a c.ctx c'.ctx)
  Ends-Accounts (ok pending) c c' ne h k = two-Accounts c.ctx c'.ctx ne h k
  Ends-Accounts (ok (ready x)) c c' ne h k = inl (Moved-restored a 0 0 c.ctx c'.ctx ne h, k.owes)
  Ends-Accounts (err e) c c' ne h k = inl (Moved-restored a 0 0 c.ctx c'.ctx ne h, k.owes)
  Ends-Accounts panic c c' ne h k = inl (Moved-restored a 0 0 c.ctx c'.ctx ne h, k.owes)

  -- All that a poll of an accept accounts for: how it ends, what is owed, and where the header of a
  -- connection is.
  abbrev pub Accounted :
      {A : Type 0} → Header → SocketCtx W → Outcome (Poll Socket) × A × SocketCtx W → Type 0
  Accounted before c (r, _, c') =
      Ends a c (r, c') × Accounts owed c.ctx (restored a c.ctx c'.ctx) × Placed a before r c'

  after-Accounted :
      (before : Header) (r : Outcome (Poll Socket)) (b c : SocketCtx W)
      → Ends a c (r, b)
      → Accounts owed c.ctx (restored a c.ctx b.ctx)
      → Placed a before r b
      → Accounted before c (after (r, b))
  unfolding after
  after-Accounted before (ok pending) b c e h p = (e, h, p)
  after-Accounted before (ok (ready x)) b c e h p = (e, h, p)
  after-Accounted before (err y) b c e h p = (e, h, p)
  after-Accounted before panic b c e h p = (e, h, p)

module _ {W : Type 0} (os : Os W) (api : Winsock W) (m : Memory) (owed : W → List ℕ)
    (k : IsKernel os owed) (kw : IsWinsock api owed) where
  -- On systems that keep their debts (`IsKernel`, `IsWinsock`), for any 64-bit counter, and with the
  -- address for the header of a connection not that of the listener's: a poll of an accept takes a
  -- permit of the port and a count of the listener's header exactly if the system then owes one
  -- packet more for that header, which only a pending poll does; after any other, counter, count and
  -- debt are unchanged. A connection that is returned has a new header at the address; otherwise the
  -- header there is as before or has no count. No third header is touched.
  pub poll-Accounted :
      (spurious : Bool) (waker address : ℕ) (state : State) (c : SocketCtx W)
      → c.ctx.shared.port.pending < 2 ^ 64
      → address ≢ c.ctx.handle.header
      → Accounted owed address (heap_of c address) c (poll os api m spurious waker address state c)
  unfolding poll
  poll-Accounted spurious waker address running c small ne =
      let (r, c') = poll_accept os api m spurious waker address c in
      let e = poll_accept-Ends os api m spurious waker address c small ne in
      after-Accounted owed address (heap_of c address) r c' c e
        (Ends-Accounts owed address r c c' ne e
          (poll_accept-Books os api m owed k kw spurious waker address c small ne))
        (poll_accept-Placed os api m address spurious waker c ne)
  poll-Accounted spurious waker address complete c small ne = (
    Moved-refl address c.ctx small,
    inl (Moved-restored address 0 0 c.ctx c.ctx ne (Moved-refl address c.ctx small), refl),
    inl refl,
  )
