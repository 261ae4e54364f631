-- ===== src/System/Safety.antt =====
-- What holds in every state that the system can reach.
use aiocp.Prelude.{
  ℕ, ◌+◌, ◌^◌, ◌<◌, ◌≤◌, ◌≡◌, ◌↔◌, refl, ap, ◌∙◌, false, List, length, count, arith,
}
use aiocp.Io.{ok}
use aiocp.Pool.SocketPool.{Winsock}
use aiocp.Os.{Os, Memory}
use aiocp.Kernel.{IsKernel, IsWinsock}
use aiocp.Port
use aiocp.Port.{shutdown}
use aiocp.Handle.Accounts.{poll-Accounts, poll_read_write-Accounts}
use aiocp.System.{
  System, ctx_of, HasRoom, PollStep, polled, read_polled, write_polled, accept_polled, Step, polls,
  others, handled, Reach, here, next,
}
use aiocp.System.Invariant.{Inv, Kept-Inv}
use aiocp.System.Polls.{Accounts-Inv}
use aiocp.System.Accepts.{accept_on-Inv}
use aiocp.System.Others.{OtherStep-Kept}
use aiocp.System.Packets.{handled-Inv, poll-Stopped}

module _ {W : Type 0} (os : Os W) (api : Winsock W) (m : Memory) (owed : W → List ℕ)
    (k : IsKernel os owed) (kw : IsWinsock api owed) where
  room_small : (s : System W) → HasRoom owed s → Inv owed s → s.shared.port.pending + 1 < 2 ^ 64
  room_small s room v = omega (arith, v.counted)

  PollStep-Inv : {s t : System W} → PollStep os api m owed s t → Inv owed s → Inv owed t
  PollStep-Inv {s} (polled i spurious waker state alive room) v =
      let small = room_small s room v in
      Accounts-Inv owed i s _ small
        (poll-Accounts os m owed k spurious waker state (ctx_of s i) (omega arith)) v
  PollStep-Inv {s} (read_polled i spurious waker bytes alive room) v =
      let small = room_small s room v in
      Accounts-Inv owed i s _ small
        (poll_read_write-Accounts os m owed k spurious waker bytes (ctx_of s i) (omega arith)).0 v
  PollStep-Inv {s} (write_polled i spurious waker bytes alive room) v =
      let small = room_small s room v in
      Accounts-Inv owed i s _ small
        (poll_read_write-Accounts os m owed k spurious waker bytes (ctx_of s i) (omega arith)).1 v
  PollStep-Inv {s} (accept_polled i j address spurious waker state alive room free) v =
      let small = room_small s room v in
      accept_on-Inv os api m owed k kw i j address spurious waker state s small alive free v

  Step-Inv : {s t : System W} → Step os api m owed s t → Inv owed s → Inv owed t
  Step-Inv {s} {t} (polls p) v = PollStep-Inv p v
  Step-Inv {s} {t} (others o) v = Kept-Inv owed s t (OtherStep-Kept os api owed k kw o) v
  Step-Inv {s} (handled rounds st room e) v = handled-Inv os owed k rounds st s room e v

  -- From books that are right, on a system that keeps its debts: whatever handles and sockets
  -- are registered, duplicated, polled and dropped and whatever connections are accepted, whatever
  -- the thread dequeues and the system does, in any order and with room in the counter: the counter
  -- of the port is the number of completions owed, and the count of each header is one for its
  -- handle, while that is alive, plus one for each completion owed for it.
  pub Reach-Inv : {s t : System W} → Inv owed s → Reach os api m owed s t → Inv owed t
  Reach-Inv v here = v
  Reach-Inv v (next r st) = Step-Inv st (Reach-Inv v r)

  -- In every state reached, the header of a handle is freed, its count being zero, exactly if the
  -- handle is dropped and the system owes no completion for it.
  pub Reach-freed_iff :
      {s t : System W} (i : ℕ)
      → Inv owed s
      → Reach os api m owed s t
      → ((t.shared.heap (t.handles i).header).strong ≡ 0)
        ↔ ((t.alive i ≡ false) × (count (t.handles i).header (owed t.shared.world) ≡ 0))
  Reach-freed_iff {s} {t} i v r =
      let held = (Reach-Inv v r).held i (t.handles i).header refl in
      (λ zero_count. ground (arith, held), λ gone. ground (arith, held))

  -- When the thread dequeues a shutdown in a state reached, the number that it then waits for is
  -- exactly the number of completions that the system still owes, and the counter turns negative.
  pub Reach-Stopped :
      {s t : System W} (n : ℕ)
      → Inv owed s
      → Reach os api m owed s t
      → HasRoom owed t
      → (Port.poll os t.shared).0 ≡ ok (shutdown n)
      → (n ≡ length (owed (Port.poll os t.shared).1.world))
        × (2 ^ 63 ≤ (Port.poll os t.shared).1.port.pending)
  Reach-Stopped {s} {t} n v r room e =
      let p = poll-Stopped os n t.shared e in
      let inv = Reach-Inv v r in
      let debt =
        ap (λ w. length (owed w)) p.world
        ∙ ap length (k.reserved_keeps t.shared.port.raw t.shared.world p.reserved) in
      (omega (arith, p.count_read, inv.counted, debt), omega (arith, p.counter, inv.counted))
