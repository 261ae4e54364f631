-- ===== src/System/Closing/Guarded.antt =====
-- A guard that is alive when the port shuts down.
use aiocp.Prelude.{ℕ, ◌+◌, ◌-◌, ◌^◌, ◌<◌, ◌≡◌, sym, ap, ◌∙◌, Bool, some, List, length, arith}
use aiocp.Io.{Outcome, Poll, ok}
use aiocp.Pool.SocketPool.{Winsock}
use aiocp.Os.{Os, Memory}
use aiocp.Kernel.{IsKernel, IsWinsock}
use aiocp.Port
use aiocp.Port.{shutdown}
use aiocp.Handle.{Ctx}
use aiocp.Handle.Guard.{lock}
use aiocp.Handle.Operation.{Operation, code}
use aiocp.Handle.Poll.{finish_operation}
use aiocp.Handle.Locking.{entered, lock-Guarded}
use aiocp.Handle.Balance.{Finishes, entered-Moved}
use aiocp.System.{System, HasRoom, ctx_of, put_ctx}
use aiocp.System.Invariant.{Books, Inv}
use aiocp.System.Polls.{Charge-Books, Moved-Charge}
use aiocp.System.Packets.{poll-Stopped}
use aiocp.System.Closing.{Closing, CloseReach}
use aiocp.System.Closing.Returned.{Ends, CloseReach-Ends, stopped, stopped-Ends}
use mathlib.Core.Path.{subst}
use aiocp.Handle.Operation.{Output}
use aiocp.Io.{OverlappedState}
use aiocp.Handle.Operation.{prepare}
use aiocp.Handle.Poll.{guarded}
use aiocp.Handle.Ending.{guarded-Ended}

module _ {W : Type 0} (os : Os W) (m : Memory) where
  -- What the poll of handle `i` does with its guard.
  abbrev pub rest_of_poll :
      Operation → OverlappedState → ℕ → System W → Outcome (Poll Output) × Ctx W
  rest_of_poll op state i s =
      guarded (prepare os m op) (finish_operation os m op) (some state) (ctx_of s i)

module _ {W : Type 0} (os : Os W) (api : Winsock W) (m : Memory) (owed : W → List ℕ)
    (k : IsKernel os owed) (kw : IsWinsock api owed) where
  -- The guard ends after the shutdown.
  finish-Ends :
      (i : ℕ) (op : Operation) (state : OverlappedState) (c : Closing W)
      → 2 ^ 63 < c.system.shared.port.pending
      → Finishes (rest_of_poll os m op state i c.system).0
      → Ends owed 1 c
      → Ends owed 1
          (record c { system = put_ctx c.system i (rest_of_poll os m op state i c.system).1 })
  finish-Ends i op state c above f v =
      let x = guarded-Ended os m owed k op state (ctx_of c.system i) v.down.small f in
      record {
        down = record {
          negative = omega (arith, x.moved.permits_out, v.down.small);
          small = omega (arith, x.moved.permits_out);
        };
        counted = omega (arith, v.counted, ap length x.owes);
        books =
            Charge-Books owed (2 ^ 64 - 1) 0 i c.system _
              (Moved-Charge owed (2 ^ 64 - 1) i c.system _ x.moved x.owes) v.books;
      }

  -- The task of handle `i` holds its guard.
  held-Books :
      (spurious : Bool) (n waker i : ℕ) (s : System W)
      → Books owed s
      → Books owed (put_ctx s i (entered os spurious n waker (ctx_of s i)))
  held-Books spurious n waker i s v =
      Charge-Books owed 1 0 i s _
        (Moved-Charge owed 1 i s _ (entered-Moved os spurious n waker (ctx_of s i))
          (k.register_waker_keeps (s.handles i).header waker s.shared.world))
        v

  -- The shutdown comes in while it does.
  stopped_guard :
      (i n : ℕ) (op : Operation) (state : OverlappedState) (s : System W) (held : Ctx W)
      → Books owed (put_ctx s i held)
      → held.shared.port.pending ≡ length (owed held.shared.world) + 1
      → length (owed held.shared.world) + 1 < 2 ^ 63
      → (Port.poll os held.shared).0 ≡ ok (shutdown n)
      → let c = stopped os (put_ctx s i held) n in
        Finishes (rest_of_poll os m op state i c.system).0
        → Ends owed 1
            (record c { system = put_ctx c.system i (rest_of_poll os m op state i c.system).1 })
  stopped_guard i n op state s held v counted room e f =
      finish-Ends i op state (stopped os (put_ctx s i held) n)
        (omega (arith, (poll-Stopped os n held.shared e).counter, counted)) f
        (stopped-Ends os api m owed k kw n 1 (put_ctx s i held) v counted room e)

  -- From books that are right, on a system that keeps its debts and with room in the counter: where
  -- the shutdown is dequeued while a poll holds its guard, and the poll then ends without an
  -- operation in flight (it collects a result, or its submission fails), whatever tasks, the system
  -- and the thread do after that, the thread waits for one completion more than the system owes; so
  -- it never gets to zero.
  pub CloseReach-Guarded :
      {s : System W} {c : Closing W} (spurious : Bool) (i waker n : ℕ) (op : Operation)
      (state : OverlappedState)
      → Inv owed s
      → HasRoom owed s
      → (lock os spurious (code op) waker (ctx_of s i)).0 ≡ ok (some state)
      → let held = (lock os spurious (code op) waker (ctx_of s i)).1 in
        let d = stopped os (put_ctx s i held) n in
        (Port.poll os held.shared).0 ≡ ok (shutdown n)
        → Finishes (rest_of_poll os m op state i d.system).0
        → CloseReach os api m owed
            (record d { system = put_ctx d.system i (rest_of_poll os m op state i d.system).1 })
            c
        → c.remaining ≡ length (owed c.system.shared.world) + 1
  CloseReach-Guarded {s} {c} spurious i waker n op state v room e stops f r =
      let g = lock-Guarded os spurious (code op) waker state (ctx_of s i) e in
      let held = entered os spurious (code op) waker (ctx_of s i) in
      let same = ap length (k.register_waker_keeps (s.handles i).header waker s.shared.world) in
      let here =
        stopped_guard i n op state s held (held-Books spurious (code op) waker i s v.books)
          (omega (arith, v.counted, same)) (omega (arith, same))
          (sym (ap (λ x. (Port.poll os x.shared).0) g.left) ∙ stops)
          (subst
            (λ x. Finishes (rest_of_poll os m op state i (stopped os (put_ctx s i x) n).system).0)
            g.left f) in
      (CloseReach-Ends os api m owed k kw 1 (rw g.left here) r).counted
