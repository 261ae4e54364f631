-- ===== src/Background/Drain.antt =====
-- The second loop: it consumes as many completions as were pending, past repeated shutdowns.
use aiocp.Prelude.{
  ℕ, zero, suc, ◌+◌, ◌^◌, ◌<◌, ◌≡◌, refl, ap, ◌∙◌, false, Option, some, arith, lt→leb, List, [],
  ◌∷◌, ◌++◌, length,
}
use mathlib.Core.List.{append_assoc}
use aiocp.Prelude.Int.{is_pos}
use aiocp.Io.{Outcome, ok}
use aiocp.Os.{Os, Dequeued}
use aiocp.Shared.{Shared}
use aiocp.Port.{
  CompletionStatus, shutdown_port, reserved_ports, poll_during_shutdown, status_of, release,
  drop_status,
}
use aiocp.Background.{run, drain, thread_body}
use aiocp.Background.Loops.{drain-status, thread_body-run}
use aiocp.Background.Queue.{IsQueue, IsOrdinary, AllOrdinary, AllSettled, release-Handled}
use aiocp.Background.Termination.{
  next, get_queued-oldest, drop_status-keeps, drop_status-world, run-Ran, AllSettled-keeps,
}

abbrev pub AllStop : List Dequeued → Type 0
AllStop [] = Unit {0}
AllStop (d ∷ ds) = (d.completion_key ≡ shutdown_port) × AllStop ds

-- One completion, behind any number of repeated shutdowns.
pub record Round : Type 0 where
  pub repeats : List Dequeued
  pub packet : Dequeued

abbrev pub arrivals : List Round → List Dequeued
arrivals [] = []
arrivals (r ∷ rs) = r.repeats ++ r.packet ∷ arrivals rs

abbrev pub completions : List Round → List Dequeued
completions [] = []
completions (r ∷ rs) = r.packet ∷ completions rs

-- The repeats are shutdowns, fewer than the fuel, and the packet is ordinary.
abbrev pub AllRounds : ℕ → List Round → Type 0
AllRounds fuel [] = Unit {0}
AllRounds fuel (r ∷ rs) =
    AllStop r.repeats × (length r.repeats < fuel) × IsOrdinary r.packet × AllRounds fuel rs

module _ {W : Type 0} (os : Os W) (packets : W → List Dequeued) (q : IsQueue os packets) where
  -- What `poll_during_shutdown` has done when it returns a packet.
  record Skipped (d : Dequeued) (rest : List Dequeued) (s : Shared W)
      (r : Option (Outcome CompletionStatus) × Shared W) : Type 0 where
    result : r.0 ≡ some (ok (status_of os d))
    queue : packets r.1.world ≡ rest
    keeps : (a : ℕ) → is_pos (s.heap a).lock ≡ false → is_pos (r.1.heap a).lock ≡ false

  poll_during_shutdown-ordinary :
      (fuel : ℕ) (d : Dequeued) (rest : List Dequeued) (s : Shared W)
      → packets s.world ≡ d ∷ rest
      → IsOrdinary d
      → poll_during_shutdown os (suc fuel) s ≡ (some (ok (status_of os d)), next os packets q s)
  unfolding poll_during_shutdown
  poll_during_shutdown-ordinary fuel d rest s e o =
      rw (get_queued-oldest os packets q s d rest e)
        (unfold status_of in rw (lt→leb reserved_ports d.completion_key o))

  poll_during_shutdown-repeat :
      (fuel : ℕ) (d : Dequeued) (rest : List Dequeued) (s : Shared W)
      → packets s.world ≡ d ∷ rest
      → d.completion_key ≡ shutdown_port
      → poll_during_shutdown os (suc fuel) s
        ≡ poll_during_shutdown os fuel (drop_status d.overlapped (next os packets q s))
  unfolding poll_during_shutdown
  poll_during_shutdown-repeat fuel d rest s e k =
      rw (get_queued-oldest os packets q s d rest e) (unfold status_of in rw k)

  skip-Skipped :
      (fuel : ℕ) (stops : List Dequeued) (d : Dequeued) (rest : List Dequeued) (s : Shared W)
      → packets s.world ≡ stops ++ d ∷ rest
      → AllStop stops
      → IsOrdinary d
      → length stops < fuel
      → Skipped d rest s (poll_during_shutdown os fuel s)
  skip-Skipped zero stops d rest s e a o f = absurd (omega arith)
  skip-Skipped (suc fuel) [] d rest s e a o f =
      rw (poll_during_shutdown-ordinary fuel d rest s e o) (record {
        result = refl;
        queue = (q.oldest s.port.raw s.world d rest e).1;
        keeps = λ b h. h;
      })
  skip-Skipped (suc fuel) (x ∷ stops) d rest s e a o f =
      let later =
        skip-Skipped fuel stops d rest (drop_status x.overlapped (next os packets q s))
          (ap packets (drop_status-world os packets q x.overlapped (next os packets q s))
            ∙ (q.oldest s.port.raw s.world x (stops ++ d ∷ rest) e).1)
          a.1 o (omega arith) in
      rw (poll_during_shutdown-repeat fuel x (stops ++ d ∷ rest) s e a.0) (record {
        result = later.result;
        queue = later.queue;
        keeps = λ b h.
            later.keeps b (drop_status-keeps os packets q x.overlapped (next os packets q s) b h);
      })

  pub record Drained (rounds : List Round) (rest : List Dequeued) (s : Shared W)
      (r : Option (Outcome (Unit {0})) × Shared W) : Type 0 where
    pub result : r.0 ≡ some (ok tt)
    pub queue : packets r.1.world ≡ rest
    pub keeps : (a : ℕ) → is_pos (s.heap a).lock ≡ false → is_pos (r.1.heap a).lock ≡ false
    pub settled : AllSettled (completions rounds) r.1

  -- The headers and the queue after one round of the loop.
  abbrev released : ℕ → Dequeued → Shared W → Shared W
  released spurious d s = drop_status d.overlapped (release os spurious d.overlapped s)

  drain_nothing :
      (spurious fuel : ℕ) (rest : List Dequeued) (s : Shared W)
      → packets s.world ≡ rest
      → Drained [] rest s (drain os spurious fuel 0 s)
  unfolding drain
  drain_nothing spurious fuel rest s e = record {
    result = refl;
    queue = e;
    keeps = λ b h. h;
    settled = tt;
  }

  drain-Drained :
      (spurious fuel : ℕ) (rounds : List Round) (rest : List Dequeued) (s : Shared W)
      → packets s.world ≡ arrivals rounds ++ rest
      → AllRounds fuel rounds
      → Drained rounds rest s (drain os spurious fuel (length rounds) s)
  unfolding status_of
  drain-Drained spurious fuel [] rest s e a = drain_nothing spurious fuel rest s e
  drain-Drained spurious fuel (r ∷ rs) rest s e a =
      let p = poll_during_shutdown os fuel s in
      let k =
        skip-Skipped fuel r.repeats r.packet (arrivals rs ++ rest) s
          (e ∙ append_assoc r.repeats (r.packet ∷ arrivals rs) rest) a.0 a.2 a.1 in
      let h = release-Handled os packets q spurious r.packet.overlapped p.1 in
      let later =
        drain-Drained spurious fuel rs rest (released spurious r.packet p.1) (h.queue ∙ k.queue)
          a.3 in
      rw
        (drain-status os spurious fuel (length rs) (status_of os r.packet) s p.1
          (ap (λ x. (x, p.1)) k.result))
        (record {
          result = later.result;
          queue = later.queue;
          keeps = λ b c. later.keeps b (h.settles.keeps b (k.keeps b c));
          settled = (λ b c. later.keeps b (h.settles.settled b c), later.settled);
        })

  -- The thread's whole life: packets come in, then a shutdown, then as many completions as were
  -- pending at the shutdown, possibly behind repeated shutdowns. With fuel for the packets before the
  -- shutdown and for each run of repeats, the thread returns without an error. It has taken exactly
  -- those packets from the queue, and every header among them is out of its in-flight state.
  pub thread_body-Drained :
      (spurious fuel : ℕ) (items : List Dequeued) (stop : Dequeued) (rounds : List Round)
      (rest : List Dequeued) (s : Shared W)
      → packets s.world ≡ items ++ stop ∷ (arrivals rounds ++ rest)
      → AllOrdinary items
      → stop.completion_key ≡ shutdown_port
      → AllRounds fuel rounds
      → length items < fuel
      → s.port.pending ≡ length items + length rounds
      → s.port.pending < 2 ^ 63
      → Drained rounds rest s (thread_body os spurious fuel s)
        × AllSettled items (thread_body os spurious fuel s).1
  thread_body-Drained spurious fuel items stop rounds rest s e o k a f p small =
      let first =
        run-Ran os packets q spurious fuel (length rounds) items stop (arrivals rounds ++ rest) s e
          o k f p (omega arith) in
      let s1 = (run os spurious fuel s).1 in
      let second = drain-Drained spurious fuel rounds rest s1 first.queue a in
      rw (thread_body-run os spurious fuel (length rounds) s s1 (ap (λ x. (x, s1)) first.result)) (
        record {
          result = second.result;
          queue = second.queue;
          keeps = λ b h. second.keeps b (first.keeps b h);
          settled = second.settled;
        },
        AllSettled-keeps os packets q items s1 _ second.keeps first.settled,
      )
