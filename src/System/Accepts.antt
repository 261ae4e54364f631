-- ===== src/System/Accepts.antt =====
-- A poll of an accept keeps the books, whether or not it makes a connection.
use aiocp.Prelude.{
  ℕ, ◌+◌, ◌^◌, ◌<◌, ◌≡◌, ◌≢◌, refl, sym, ap, ◌∙◌, ◌⊎◌, inl, inr, Bool, true, List, count, arith,
}
use native.Mathlib.Decide.{ℕ_discrete}
use aiocp.Io.{Outcome, ok, err, panic, Poll, pending, ready}
use aiocp.Os.{Os, Memory}
use aiocp.Kernel.{IsKernel, IsWinsock}
use aiocp.Pool.SocketPool.{Winsock}
use aiocp.Handle.{Ctx}
use aiocp.Handle.Accounts.{Accounts}
use aiocp.Socket.{Socket, SocketCtx}
use aiocp.Socket.Poll.{State}
use aiocp.Socket.Placed.{Placed}
use aiocp.Socket.Accounts.{restored, poll-Accounted}
use aiocp.System.{System, ctx_of, put_ctx, put_socket, socket_of, accepted, accept_on, IsFree}
use aiocp.System.Invariant.{Books, Inv}
use aiocp.System.Polls.{Accounts-Inv}
use aiocp.System.Creation.{adopt-Books}

module _ {W : Type 0} (owed : W → List ℕ) (i j address : ℕ) (s : System W) (live : s.alive i ≡ true)
    (free : IsFree owed s j address) where
  -- The listener is not the number of the connection, and its header is not at that address.
  other : i ≢ j
  other e = ground (arith, live, free.dead, ap s.alive e)

  apart : address ≢ (s.handles i).header
  apart e = other (free.fresh i (sym e))

  -- The rest of the system after the poll, with the header at the address as it was before.
  abbrev rest : Ctx W → System W
  rest c = put_ctx s i (restored address (ctx_of s i) c)

  rest-header :
      (c : Ctx W) (l : ℕ)
      → Accounts owed (ctx_of s i) (restored address (ctx_of s i) c)
      → ((rest c).handles l).header ≡ (s.handles l).header
  rest-header c l (inl (h, e)) = ground (arith, h.header)
  rest-header c l (inr (h, e)) = ground (arith, h.header)

  rest-settled :
      (c : Ctx W)
      → Books owed s
      → Accounts owed (ctx_of s i) (restored address (ctx_of s i) c)
      → count (s.handles j).header (owed c.shared.world) ≡ 0
  rest-settled c v (inl (h, e)) = ap (count (s.handles j).header) e ∙ free.settled
  rest-settled c v (inr (h, e)) =
      let ne : (s.handles i).header ≢ (s.handles j).header = λ p. other (v.distinct i j p) in
      rw e (ground (arith, ne, free.settled))

  rest-IsFree :
      (c : Ctx W)
      → Books owed s
      → Accounts owed (ctx_of s i) (restored address (ctx_of s i) c)
      → IsFree owed (rest c) j address
  rest-IsFree c v a = record {
    dead = free.dead;
    settled = ap (λ x. count x (owed c.shared.world)) (rest-header c j a) ∙ rest-settled c v a;
    fresh = λ l e. free.fresh l (sym (rest-header c l a) ∙ e);
  }

  -- No connection is made: the header at the address is that of no handle that is alive.
  left-held :
      (c : Ctx W)
      → Books owed s
      → Accounts owed (ctx_of s i) (restored address (ctx_of s i) c)
      → (c.shared.heap address ≡ s.shared.heap address) ⊎ ((c.shared.heap address).strong ≡ 0)
      → Books owed (rest c)
      → Books owed (put_ctx s i c)
  left-held c v a place w = record {
    held = λ l b e.
        let old = w.held l b e in
        elim (ℕ_discrete address b) [
          | yes p ↦
              let at : l ≡ j = free.fresh l (sym (rest-header c l a) ∙ e ∙ sym p) in
              let dead = ap s.alive at ∙ free.dead in
              let header : (s.handles j).header ≡ b =
                ap (λ x. (s.handles x).header) (sym at) ∙ sym (rest-header c l a) ∙ e in
              let none_owed =
                ap (λ x. count x (owed c.shared.world)) (sym header) ∙ rest-settled c v a in
              elim place [
                | inl q ↦ ground (arith, old, p, q)
                | inr z ↦ ground (arith, p, z, dead, none_owed)
              ]
          | no p ↦ ground (arith, old, p)
        ];
    distinct = w.distinct;
    known = w.known;
  }

  left-Inv :
      (c : SocketCtx W)
      → s.shared.port.pending + 1 < 2 ^ 64
      → Accounts owed (ctx_of s i) (restored address (ctx_of s i) c.ctx)
      → (c.ctx.shared.heap address ≡ s.shared.heap address)
        ⊎ ((c.ctx.shared.heap address).strong ≡ 0)
      → Inv owed s
      → Inv owed (put_socket s i c)
  left-Inv c small a place v =
      let w = Accounts-Inv owed i s _ small a v in
      let b = left-held c.ctx v.books a place w.books in
      record {
        counted = w.counted;
        books = record { held = b.held; distinct = b.distinct; known = b.known };
      }

  accepted-Inv :
      (r : Outcome (Poll Socket)) (c : SocketCtx W)
      → s.shared.port.pending + 1 < 2 ^ 64
      → Accounts owed (ctx_of s i) (restored address (ctx_of s i) c.ctx)
      → Placed address (s.shared.heap address) r c
      → Inv owed s
      → Inv owed (accepted s i j r c)
  accepted-Inv (ok pending) c small a place v = left-Inv c small a place v
  accepted-Inv (err e) c small a place v = left-Inv c small a place v
  accepted-Inv panic c small a place v = left-Inv c small a place v
  accepted-Inv (ok (ready socket)) c small a place v =
      let w = Accounts-Inv owed i s _ small a v in
      let b =
        adopt-Books owed (rest c.ctx) j address socket.base c.ctx.shared
          (rest-IsFree c.ctx v.books a)
          (record {
            header = place.0;
            heap = λ x. elim (ℕ_discrete address x) [
              | yes p ↦ ground (arith, p, place.1)
              | no p ↦ ground (arith, p)
            ];
            port = refl;
            owes = refl;
          })
          w.books in
      record {
        counted = w.counted;
        books = record { held = b.held; distinct = b.distinct; known = b.known };
      }

module _ {W : Type 0} (os : Os W) (api : Winsock W) (m : Memory) (owed : W → List ℕ)
    (k : IsKernel os owed) (kw : IsWinsock api owed) where
  pub accept_on-Inv :
      (i j address : ℕ) (spurious : Bool) (waker : ℕ) (state : State) (s : System W)
      → s.shared.port.pending + 1 < 2 ^ 64
      → s.alive i ≡ true
      → IsFree owed s j address
      → Inv owed s
      → Inv owed (accept_on os api m s i j address spurious waker state)
  accept_on-Inv i j address spurious waker state s small live free v =
      let ne = apart owed i j address s live free in
      let (ends, accounts, placed) =
        poll-Accounted os api m owed k kw spurious waker address state (socket_of s i) (omega arith)
          ne in
      accepted-Inv owed i j address s live free _ _ small accounts placed v
