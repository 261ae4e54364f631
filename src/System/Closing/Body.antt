-- ===== src/System/Closing/Body.antt =====
-- The body of the thread is a run of the system in which nothing else happens.
use aiocp.Prelude.{
  ℕ, zero, suc, ◌+◌, ◌-◌, ◌<◌, ◌≡◌, refl, sym, ap, ◌∙◌, inl, inr, Option, some, List, [], ◌∷◌, ◌++◌,
  length, arith,
}
use mathlib.Core.Path.{subst}
use aiocp.Io.{Outcome, ok}
use aiocp.Pool.SocketPool.{Winsock}
use aiocp.Os.{Os, Memory, Dequeued}
use aiocp.Kernel.{IsKernel, IsWinsock}
use aiocp.Shared.{Shared}
use aiocp.Port
use aiocp.Port.{
  CompletionStatus, CompletionPoll, status, shutdown, shutdown_port, poll_during_shutdown,
}
use aiocp.Background.{dispatch, run, drain, thread_body}
use aiocp.Background.Queue.{IsQueue, AllOrdinary}
use aiocp.Background.Drain.{Round, arrivals, AllRounds, thread_body-Drained}
use aiocp.Background.Loops.{run-RunRound, drain-DrainRound, thread_body-Both}
use aiocp.System.{System, HasRoom, Reach, here, next, handled}
use aiocp.System.Invariant.{Inv, one_if}
use aiocp.System.Packets.{dispatch-Handled}
use aiocp.System.Closing.{Closing, CloseReach, drained, consume}
use aiocp.System.Closing.Returned.{stopped, CloseReach-Returned}

length-nil : (xs : List ℕ) → length xs ≡ 0 → xs ≡ []
length-nil [] e = refl
length-nil (x ∷ xs) e = absurd (omega (arith, e))

module _ {W : Type 0} where
  abbrev at : System W → Shared W → System W
  at s s' = record s { shared = s' }

module _ {W : Type 0} (os : Os W) (api : Winsock W) (m : Memory) (owed : W → List ℕ)
    (start : System W) (rounds : ℕ) where
  -- The first loop ends where a shutdown is dequeued.
  record StopsAt (n : ℕ) (s : System W) (end' : Shared W) : Type 0 where
    last : Shared W
    reached : Reach os api m owed start (at s last)
    room : HasRoom owed (at s last)
    stops : (Port.poll os last).0 ≡ ok (shutdown n)
    left : end' ≡ (Port.poll os last).1

  handled-room :
      (k : IsKernel os owed) (st : CompletionStatus) (s : System W)
      → (Port.poll os s.shared).0 ≡ ok (status st)
      → HasRoom owed s
      → HasRoom owed (at s (dispatch os rounds st (Port.poll os s.shared).1))
  handled-room k st s e room = omega (arith, (dispatch-Handled os owed k rounds st s.shared e).debt)

  -- A run of the first loop is a run of the system.
  run-StopsAt :
      (k : IsKernel os owed) (fuel n : ℕ) (s : System W)
      → Reach os api m owed start s
      → HasRoom owed s
      → (run os rounds fuel s.shared).0 ≡ some (ok n)
      → StopsAt n s (run os rounds fuel s.shared).1
  run-StopsAt k zero n s r room e = unfold run in cc
  run-StopsAt k (suc fuel) n s r room e = elim (run-RunRound os rounds fuel n s.shared e) [
    | inl (stops, left) ↦ record {
      last = s.shared;
      reached = r;
      room = room;
      stops = stops;
      left = left;
    }
    | inr (st, found, path) ↦
        let s' = at s (dispatch os rounds st (Port.poll os s.shared).1) in
        let x =
          run-StopsAt k fuel n s' (next r (handled rounds st room found))
            (handled-room k st s found room) (sym (ap (λ y. y.0) path) ∙ e) in
        record {
          last = x.last;
          reached = x.reached;
          room = x.room;
          stops = x.stops;
          left = ap (λ y. y.1) path ∙ x.left;
        }
  ]

module _ {W : Type 0} (os : Os W) (api : Winsock W) (m : Memory) (owed : W → List ℕ)
    (start : Closing W) (rounds fuel : ℕ) where
  -- A run of the second loop is a run of the system to where nothing remains.
  drain-CloseReach :
      (n : ℕ) (s : System W)
      → CloseReach os api m owed start (record { system = s; remaining = n })
      → (drain os rounds fuel n s.shared).0 ≡ some (ok tt)
      → CloseReach os api m owed start
          (record { system = at s (drain os rounds fuel n s.shared).1; remaining = 0 })
  drain-CloseReach zero s r e = unfold drain in r
  drain-CloseReach (suc n) s r e =
      let (st, found, path) = drain-DrainRound os rounds fuel n s.shared e in
      let s' = at s (consume os rounds st (poll_during_shutdown os fuel s.shared).1) in
      let less : suc n - 1 ≡ n = omega arith in
      let step : CloseReach os api m owed start (record { system = s'; remaining = suc n - 1 }) =
        CloseReach.next r (drained fuel rounds st (omega arith) found) in
      rw path (
        drain-CloseReach n s'
          (subst (λ j. CloseReach os api m owed start (record { system = s'; remaining = j })) less
            step)
          (sym (ap (λ y. y.0) path) ∙ e))

module _ {W : Type 0} (os : Os W) (api : Winsock W) (m : Memory) (owed : W → List ℕ)
    (k : IsKernel os owed) (kw : IsWinsock api owed) where
  -- The thread has returned: nothing is owed, and a header is held by its handle alone.
  pub record Concluded (s : System W) (r : Option (Outcome (Unit {0})) × Shared W) : Type 0 where
    pub result : r.0 ≡ some (ok tt)
    pub owes : owed r.1.world ≡ []
    pub held : (i : ℕ) → (r.1.heap (s.handles i).header).strong ≡ one_if (s.alive i)

  returned-Concluded :
      (rounds fuel : ℕ) (s : System W)
      → Inv owed s
      → HasRoom owed s
      → (thread_body os rounds fuel s.shared).0 ≡ some (ok tt)
      → Concluded s (thread_body os rounds fuel s.shared)
  returned-Concluded rounds fuel s v room e =
      let (n, first, path) = thread_body-Both os rounds fuel s.shared e in
      let x = run-StopsAt os api m owed s rounds k fuel n s here room first in
      let begin = stopped os (at s x.last) n in
      let second : (drain os rounds fuel n begin.system.shared).0 ≡ some (ok tt) =
        sym (ap (λ y. (drain os rounds fuel n y).0) x.left) ∙ sym (ap (λ y. y.0) path) ∙ e in
      let r =
        drain-CloseReach os api m owed begin rounds fuel n begin.system CloseReach.here second in
      let over = CloseReach-Returned os api m owed k kw n v x.reached x.room x.stops r in
      let same = ap (λ y. y.1) path ∙ ap (λ y. (drain os rounds fuel n y).1) x.left in
      record {
        result = e;
        owes = rw same (length-nil _ (sym over.0));
        held = λ i. rw same (over.1 refl i);
      }

  -- From books that are right, on a system that keeps its debts and whose port is a queue, with
  -- nothing but the thread running: the queue has ordinary packets, a shutdown, and then further
  -- ordinary packets (each behind fewer repeated shutdowns than the fuel), as many in all as
  -- completions are owed, and there is more fuel than packets before the shutdown. Then the body of
  -- the thread returns without an error, nothing is owed any more, and the header of each handle
  -- has one count if the handle is alive, and is freed if it was dropped.
  pub thread_body-Concluded :
      (packets : W → List Dequeued) (q : IsQueue os packets) (spurious fuel : ℕ)
      (items : List Dequeued) (stop : Dequeued) (rounds : List Round) (rest : List Dequeued)
      (s : System W)
      → Inv owed s
      → HasRoom owed s
      → packets s.shared.world ≡ items ++ stop ∷ (arrivals rounds ++ rest)
      → AllOrdinary items
      → stop.completion_key ≡ shutdown_port
      → AllRounds fuel rounds
      → length items < fuel
      → length (owed s.shared.world) ≡ length items + length rounds
      → Concluded s (thread_body os spurious fuel s.shared)
  thread_body-Concluded packets q spurious fuel items stop rounds rest s v room e o st a f n =
      returned-Concluded spurious fuel s v room
        (thread_body-Drained os packets q spurious fuel items stop rounds rest s.shared e o st a f
          (v.counted ∙ n) (omega (arith, v.counted))).0.result
