-- ===== src/Socket/Ready.antt =====
-- A listener in any order of steps: its pool of sockets, and why a poll of an accept does not panic
-- over it.
mod Clearing
mod Submitting
mod Collecting
mod Polls
pub use Clearing.{OfAccept, IsReady}
use Clearing.{open-not_accept}
use Polls.{poll-Lands}
use aiocp.Prelude.{
  ℕ, zero, suc, ◌≡◌, ◌≢◌, refl, sym, ap, ◌∙◌, ◌⊎◌, inl, inr, Bool, Option, none, some,
  if◌then◌else◌, arith,
}
use aiocp.Prelude.Int.{ℤ, pos, negsuc, is_pos, neg}
use native.Mathlib.Decide.{ℕ_discrete}
use aiocp.Shared.{Shared, update}
use aiocp.Task.{unlock}
use aiocp.Task.Rounds.{unlock_loop-replicate}
use aiocp.Background.{by_outcome, dispatch}
use aiocp.Background.Life.{by_outcome-Unlocked}
use aiocp.Port.{
  CompletionOutcome, CompletionStatus, completed, aborted, errored, drop_status, release,
  unlock_status,
}
use mathlib.Core.Path.{subst}
use aiocp.Io.{Outcome, ok, err, panic, Poll}
use aiocp.Os.{Os, Memory}
use aiocp.Task.{Header}
use aiocp.Pool.BufferPool.{take_buffer}
use aiocp.Pool.SocketPool
use aiocp.Pool.SocketPool.{Winsock, SocketPool}
use aiocp.Pool.SocketPool.Lent.{SocketErrors}
use aiocp.Handle.{own_header}
use aiocp.Handle.Guard.{lock}
use aiocp.Socket.Defs.{Socket, SocketCtx, new}
use aiocp.Socket.Accept.{accept_code}
use aiocp.Socket.Poll.{State, poll}

unlock_lock :
    (rounds : ℕ) (h : Header)
    → (unlock rounds h).0.lock ≡ (if is_pos h.lock then neg h.lock else h.lock)
unfolding unlock
unlock_lock rounds h = ground (arith, unlock_loop-replicate rounds h.lock)

unlocked-OfAccept :
    (l : ℤ) (h : Header)
    → h.lock ≡ (if is_pos l then neg l else l)
    → OfAccept h
    → (l ≡ pos (suc accept_code)) ⊎ (l ≡ negsuc accept_code)
unlocked-OfAccept (pos zero) h q (inl e) = ground (arith, q, e)
unlocked-OfAccept (pos zero) h q (inr e) = ground (arith, q, e)
unlocked-OfAccept (pos (suc n)) h q (inl e) = ground (arith, q, e)
unlocked-OfAccept (pos (suc n)) h q (inr e) = inl (ground (arith, q, e))
unlocked-OfAccept (negsuc n) h q (inl e) = ground (arith, q, e)
unlocked-OfAccept (negsuc n) h q (inr e) = inr (sym q ∙ e)

module _ {W : Type 0} (os : Os W) where
  dispatch-OfAccept :
      (rounds a : ℕ) (outcome : CompletionOutcome) (header : Option ℕ) (s : Shared W)
      → OfAccept ((drop_status header (by_outcome os outcome rounds header s)).heap a)
      → OfAccept (s.heap a)
  unfolding drop_status
  dispatch-OfAccept rounds a aborted none s o = unfold by_outcome unlock_status in o
  dispatch-OfAccept rounds a completed none s o = unfold by_outcome release in o
  dispatch-OfAccept rounds a errored none s o = unfold by_outcome release in o
  dispatch-OfAccept rounds a outcome (some b) s o =
      let s1 = by_outcome os outcome rounds (some b) s in
      let u = by_outcome-Unlocked os outcome rounds b s in
      let kept : ((drop_status (some b) s1).heap a).lock ≡ (s1.heap a).lock = ground arith in
      let heap : s1.heap a ≡ update s.heap b (unlock rounds (s.heap b)).0 a =
        ap (λ f. f a) u.heap in
      elim (ℕ_discrete b a) [
        | yes p ↦
            unlocked-OfAccept (s.heap a).lock ((drop_status (some b) s1).heap a)
              (ground (arith, kept, heap, p, unlock_lock rounds (s.heap b))) o
        | no p ↦
            subst (λ l. (l ≡ pos (suc accept_code)) ⊎ (l ≡ negsuc accept_code))
              (ground (arith, kept, heap, p)) o
      ]

module _ {W : Type 0} (os : Os W) (api : Winsock W) (m : Memory) where
  -- What happens to a listener: it is polled for an accept; the thread deals with a packet, of its
  -- header or of another, in either loop; or anything else happens that leaves its lock word alone.
  pub data ListenerStep (c : SocketCtx W) : SocketCtx W → Type 0 where
    polled :
        (spurious : Bool) (waker address : ℕ) (state : State)
        → ListenerStep c (poll os api m spurious waker address state c).2
    handled :
        (rounds : ℕ) (st : CompletionStatus)
        → ListenerStep c
            (record c { ctx = record c.ctx { shared = dispatch os rounds st c.ctx.shared } })
    elsewhere :
        (s : Shared W)
        → (s.heap c.ctx.handle.header).lock ≡ (own_header c.ctx).lock
        → ListenerStep c (record c { ctx = record c.ctx { shared = s } })

  pub data ListenerReach (c : SocketCtx W) : SocketCtx W → Type 0 where
    here : ListenerReach c c
    next : {d e : SocketCtx W} → ListenerReach c d → ListenerStep d e → ListenerReach c e

module _ {W : Type 0} (os : Os W) (api : Winsock W) (m : Memory) (answers : SocketErrors api) where
  relocked-IsReady :
      (c : SocketCtx W) (s : Shared W)
      → IsReady c
      → (OfAccept (s.heap c.ctx.handle.header) → OfAccept (own_header c.ctx))
      → IsReady (record c { ctx = record c.ctx { shared = s } })
  relocked-IsReady c s v back = record {
    unreleased = v.unreleased;
    in_list = v.in_list;
    taken = λ o. v.taken (back o);
  }

  ListenerStep-IsReady : {c d : SocketCtx W} → ListenerStep os api m c d → IsReady c → IsReady d
  ListenerStep-IsReady {c} (polled spurious waker address state) v =
      (poll-Lands os api m answers spurious waker address state c v).0
  ListenerStep-IsReady {c} (handled rounds st) v =
      relocked-IsReady c (dispatch os rounds st c.ctx.shared) v (
        unfold dispatch in
        dispatch-OfAccept os rounds c.ctx.handle.header st.outcome st.header c.ctx.shared)
  ListenerStep-IsReady {c} (elsewhere s e) v =
      relocked-IsReady c s v (subst (λ l. (l ≡ pos (suc accept_code)) ⊎ (l ≡ negsuc accept_code)) e)

  reached-IsReady : {c d : SocketCtx W} → ListenerReach os api m c d → IsReady c → IsReady d
  reached-IsReady here v = v
  reached-IsReady (next r st) v = ListenerStep-IsReady st (reached-IsReady r v)

  fresh-IsReady :
      (info : ℕ) (c : SocketCtx W)
      → (own_header c.ctx).lock ≡ pos 0
      → c.sockets ≡ SocketPool.new info
      → IsReady c
  unfolding SocketPool.new
  fresh-IsReady info c z e = record {
    unreleased = ap (λ p. p.released) e;
    in_list = omega (arith, ap (λ p. p.taken) e);
    taken = λ o. absurd (open-not_accept (own_header c.ctx) z o);
  }

  calm_or_panic : (r : Outcome (Poll Socket)) → (r ≢ panic) ⊎ (r ≡ panic)
  calm_or_panic (ok x) = inl (λ e. cc)
  calm_or_panic (err x) = inl (λ e. cc)
  calm_or_panic panic = inr refl

  -- From a listener with an open lock and a new pool of sockets, where `WSASocketW` does not report
  -- `ERROR_IO_PENDING`: whatever polls of accepts, packets and other steps follow, in any order and
  -- whichever weak exchanges fail by themselves, in the state reached nothing is released, what is
  -- taken is in the list, and there is a taken socket while an accept is in flight or completed; and
  -- any poll of an accept there does not panic, or else the lending of its output buffer does.
  pub ListenerReach-IsReady :
      {c d : SocketCtx W} (info : ℕ) (spurious : Bool) (waker address : ℕ) (state : State)
      → (own_header c.ctx).lock ≡ pos 0
      → c.sockets ≡ SocketPool.new info
      → ListenerReach os api m c d
      → IsReady d
        × (((poll os api m spurious waker address state d).0 ≢ panic)
            ⊎ ((take_buffer m 128 d.ctx.handle.pool).0 ≡ panic))
  ListenerReach-IsReady {c} {d} info spurious waker address state z e r =
      let v = reached-IsReady r (fresh-IsReady info c z e) in
      (
        v,
        elim (calm_or_panic (poll os api m spurious waker address state d).0) [
          | inl calm ↦ inl calm
          | inr p ↦ inr ((poll-Lands os api m answers spurious waker address state d v).1 p)
        ],
      )
