-- ===== src/System/Closing/Returned.antt =====
-- What holds until the thread returns, and what it leaves then.
use aiocp.Prelude.{ℕ, ◌+◌, ◌^◌, ◌<◌, ◌≤◌, ◌≡◌, refl, ap, ◌∙◌, List, [], ◌∷◌, length, count, arith}
use aiocp.Io.{ok}
use aiocp.Pool.SocketPool.{Winsock}
use aiocp.Os.{Os, Memory}
use aiocp.Kernel.{IsKernel, IsWinsock}
use aiocp.Shared.{Shared}
use aiocp.Port
use aiocp.Port.{shutdown, drop_status}
use aiocp.System.{System, HasRoom, Reach}
use aiocp.System.Invariant.{Books, Books-same, Inv, one_if}
use aiocp.System.Others.{OtherStep-Kept}
use aiocp.System.Packets.{Stopped, poll-Stopped}
use aiocp.System.Safety.{Reach-Inv}
use aiocp.System.Closing.{Closing, CloseStep, polls, others, drained, CloseReach, here, next}
use aiocp.System.Closing.Refused.{IsDown, PollStep-same}
use aiocp.System.Closing.Drained.{consume-Consumed}

count-le-length : (a : ℕ) (xs : List ℕ) → count a xs ≤ length xs
count-le-length a [] = omega arith
count-le-length a (x ∷ xs) = ground (arith, count-le-length a xs)

-- The thread waits for the completions that are owed, and for `extra` that are not.
pub record Ends {W : Type 0} (owed : W → List ℕ) (extra : ℕ) (c : Closing W) : Type 0 where
  pub down : IsDown c.system
  pub counted : c.remaining ≡ length (owed c.system.shared.world) + extra
  pub books : Books owed c.system

module _ {W : Type 0} (os : Os W) (api : Winsock W) (m : Memory) (owed : W → List ℕ)
    (k : IsKernel os owed) (kw : IsWinsock api owed) (extra : ℕ) where
  CloseStep-Ends :
      {c d : Closing W} → CloseStep os api m owed c d → Ends owed extra c → Ends owed extra d
  CloseStep-Ends {c} (polls p) v =
      rw (PollStep-same os api m owed v.down p)
        (record { down = v.down; counted = v.counted; books = v.books })
  CloseStep-Ends {c} (others o) v =
      let kept = OtherStep-Kept os api owed k kw o in
      record {
        down = record {
          negative = omega (arith, v.down.negative, ap (λ p. p.pending) kept.port);
          small = omega (arith, v.down.small, ap (λ p. p.pending) kept.port);
        };
        counted = omega (arith, v.counted, ap length kept.owes);
        books = kept.books v.books;
      }
  CloseStep-Ends {c} (drained fuel rounds st more e) v =
      let done = consume-Consumed os owed k fuel rounds st c.system e in
      record {
        down = record {
          negative = omega (arith, v.down.negative, ap (λ p. p.pending) done.port);
          small = omega (arith, v.down.small, ap (λ p. p.pending) done.port);
        };
        counted = omega (arith, done.debt, v.counted);
        books = done.books v.books;
      }

  pub CloseReach-Ends :
      {c d : Closing W} → Ends owed extra c → CloseReach os api m owed c d → Ends owed extra d
  CloseReach-Ends v here = v
  CloseReach-Ends v (next r st) = CloseStep-Ends st (CloseReach-Ends v r)

module _ {W : Type 0} (os : Os W) where
  -- The thread has dequeued a shutdown, and goes on to its second loop.
  abbrev pub stopped : System W → ℕ → Closing W
  stopped s n = record { system = record s { shared = (Port.poll os s.shared).1 }; remaining = n }

module _ {W : Type 0} (os : Os W) (api : Winsock W) (m : Memory) (owed : W → List ℕ)
    (k : IsKernel os owed) (kw : IsWinsock api owed) where
  Stopped-heap : (n : ℕ) (s : Shared W) → Stopped os n s → (Port.poll os s).1.heap ≡ s.heap
  unfolding drop_status
  Stopped-heap n s p = rw (p.left, k.reserved_null s.port.raw s.world p.reserved) refl

  -- A shutdown that is dequeued while the counter is `extra` above the debts.
  pub stopped-Ends :
      (n extra : ℕ) (s : System W)
      → Books owed s
      → s.shared.port.pending ≡ length (owed s.shared.world) + extra
      → length (owed s.shared.world) + extra < 2 ^ 63
      → (Port.poll os s.shared).0 ≡ ok (shutdown n)
      → Ends owed extra (stopped os s n)
  stopped-Ends n extra s v counted room e =
      let p = poll-Stopped os n s.shared e in
      let debt = ap owed p.world ∙ k.reserved_keeps s.shared.port.raw s.shared.world p.reserved in
      record {
        down = record { negative = omega (arith, p.counter); small = omega (arith, p.counter) };
        counted = omega (arith, p.count_read, ap length debt);
        books = Books-same owed s _ (Stopped-heap n s.shared p) debt v;
      }

  -- From books that are right, on a system that keeps its debts: once the thread has dequeued a
  -- shutdown, whatever tasks and the system do then, the number of completions that it still waits
  -- for is the number that the system owes; so when it returns, every completion has come in, and
  -- the header of each handle has one count if the handle is alive, and is freed if it was dropped.
  pub CloseReach-Returned :
      {s t : System W} {c : Closing W} (n : ℕ)
      → Inv owed s
      → Reach os api m owed s t
      → HasRoom owed t
      → (Port.poll os t.shared).0 ≡ ok (shutdown n)
      → CloseReach os api m owed (stopped os t n) c
      → (c.remaining ≡ length (owed c.system.shared.world))
        × (c.remaining ≡ 0
            → (i : ℕ)
            → (c.system.shared.heap (c.system.handles i).header).strong ≡ one_if (c.system.alive i))
  CloseReach-Returned {s} {t} {c} n v r room e q =
      let inv = Reach-Inv os api m owed k kw v r in
      let start = stopped-Ends n 0 t inv.books (omega (arith, inv.counted)) (omega arith) e in
      let end' = CloseReach-Ends os api m owed k kw 0 start q in
      (
        omega (arith, end'.counted),
        λ over i. omega (
          arith,
          end'.books.held i (c.system.handles i).header refl,
          end'.counted,
          count-le-length (c.system.handles i).header (owed c.system.shared.world),
        ),
      )
