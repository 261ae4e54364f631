-- ===== src/Socket/Ready/Clearing.antt =====
-- What a listener's pool of sockets is like between its polls, and what the end of a guard makes
-- of it.
use aiocp.Prelude.{suc, ◌≤◌, ◌≡◌, ◌≢◌, refl, ap, ◌⊎◌, inl, inr, Bool, length, arith}
use aiocp.Prelude.Int.{pos, negsuc}
use aiocp.Io.{Outcome, ok, err, panic, Poll, pending, ready, idle, in_progress}
use aiocp.Os.{Os, Memory}
use aiocp.Task.{Header, LockResult, acquired, busy, header_lock}
use aiocp.Pool.SocketPool.{Winsock}
use aiocp.Pool.SocketPool.Reuse.{IsValid}
use aiocp.Handle.{own_header}
use aiocp.Socket.Defs.{Socket, SocketCtx}
use aiocp.Socket.Guard.{close, drop_guard}
use aiocp.Socket.Accept.{accept_code}
use aiocp.Socket.Poll.{after}
use aiocp.Socket.Reuse.{drop_guard_lem, dropped-ok}

-- The lock word is that of an accept in flight, or of a completed one.
abbrev pub OfAccept : Header → Type 0
OfAccept h = (h.lock ≡ pos (suc accept_code)) ⊎ (h.lock ≡ negsuc accept_code)

pub open-not_accept : (h : Header) → h.lock ≡ pos 0 → OfAccept h → ⊥
open-not_accept h z (inl e) = ground (arith, z, e)
open-not_accept h z (inr e) = ground (arith, z, e)

-- Nothing is released, what is taken is in the list, and while an accept is in flight or completed
-- there is a taken one.
pub record IsReady {W : Type 0} (c : SocketCtx W) : Type 0 where
  pub unreleased : c.sockets.released ≡ 0
  pub in_list : c.sockets.taken ≤ length c.sockets.sockets
  pub taken : OfAccept (own_header c.ctx) → 1 ≤ c.sockets.taken

-- What the answer of the lock tells of the header.
abbrev pub Told : LockResult → Header → Header → Type 0
Told (acquired idle) before after = Unit {0}
Told (acquired in_progress) before after = before.lock ≡ negsuc accept_code
Told (busy mismatch) before after = after ≡ before

pub header_lock-Told :
    (spurious : Bool) (h : Header) (r : LockResult)
    → (header_lock spurious accept_code h).0 ≡ r
    → Told r h (header_lock spurious accept_code h).1
unfolding header_lock
header_lock-Told spurious h (acquired idle) e = tt
header_lock-Told spurious h (acquired in_progress) e = ground (arith, e)
header_lock-Told spurious h (busy mismatch) e = ground (arith, e)

module _ {W : Type 0} (os : Os W) (api : Winsock W) (m : Memory) where
  dropped-IsReady :
      (b : SocketCtx W)
      → IsValid b.sockets
      → let (r, c) = drop_guard api b in (r ≡ ok tt) × IsReady c
  dropped-IsReady b v =
      let d = drop_guard_lem os api m b v in
      (
        d.result,
        record {
          unreleased = ap (λ p. p.released) d.sockets;
          in_list = omega (arith, ap (λ p. p.taken) d.sockets);
          taken = λ o. absurd (open-not_accept (own_header (drop_guard api b).1.ctx) d.lock o);
        },
      )

  pub close-IsReady :
      (r : Outcome (Poll Socket)) (b : SocketCtx W)
      → r ≢ ok pending
      → IsValid b.sockets
      → let (x, c) = close os api (r, b) in (x ≡ r) × IsReady c
  unfolding close
  close-IsReady (ok pending) b ne v = absurd (ne refl)
  close-IsReady (ok (ready s)) b ne v =
      let d = dropped-IsReady b v in
      rw (dropped-ok os api m (ok (ready s)) (drop_guard api b) d.0) (refl, d.1)
  close-IsReady (err e) b ne v =
      let d = dropped-IsReady b v in
      rw (dropped-ok os api m (err e) (drop_guard api b) d.0) (refl, d.1)
  close-IsReady panic b ne v =
      let d = dropped-IsReady b v in
      rw (dropped-ok os api m panic (drop_guard api b) d.0) (refl, d.1)
