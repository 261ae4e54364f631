-- ===== src/Tests/Threads.antt =====
-- Tests of the background thread: one packet, a shutdown, a repeated shutdown, one packet more.
use aiocp.Prelude.{refl, List, [], ◌∷◌, arith}
use aiocp.Prelude.Int.{pos}
use aiocp.Os.{Dequeued}
use aiocp.Shared.{Shared}
use aiocp.Port.{shutdown_port}
use aiocp.Background.{run, thread_body}
use aiocp.Background.Tally.{Tallied, run-Tallied}
use aiocp.Background.Queue.{AllOrdinary, AllSettled}
use aiocp.Background.Drain.{Round, Drained, thread_body-Drained}
use aiocp.Tests.Small as Small
use aiocp.Tests.Small.{Entry, done, cut, stop, stop_packet, kernel, kernel-IsQueue}
use aiocp.Tests.System.{system, packets, packet, system-IsQueue}

abbrev before : List Dequeued
before = packet 0 7 ∷ []

abbrev rounds : List Round
rounds = record { repeats = packet shutdown_port 2 ∷ []; packet = packet 0 8 } ∷ []

abbrev queued : Shared (List Dequeued)
queued = record {
  world = packet 0 7 ∷ packet shutdown_port 2 ∷ packet shutdown_port 2 ∷ packet 0 8 ∷ [];
  port = record { raw = 1; pending = 2 };
  heap = λ a. record { lock = pos 9; offset = 0; offset_high = 0; strong = 2 };
}

thread_body-Drained_example :
    Drained system packets system-IsQueue rounds [] queued (thread_body system 1 5 queued)
    × AllSettled before (thread_body system 1 5 queued).1
thread_body-Drained_example =
    thread_body-Drained system packets system-IsQueue 1 5 before (packet shutdown_port 2) rounds []
      queued refl (omega arith, tt) refl ((refl, tt), omega arith, omega arith, tt) (omega arith)
      refl (omega arith)

-- A packet that completed, one that was cut off, a shutdown without a header, and one packet more.
abbrev entries : List Entry
entries = done 5 ∷ cut 6 ∷ stop ∷ done 5 ∷ []

abbrev flying : Shared (List Entry)
flying = record {
  world = entries;
  port = record { raw = 1; pending = 3 };
  heap = λ a. record { lock = pos 9; offset = 0; offset_high = 0; strong = 2 };
}

abbrev items : List Dequeued
items = Small.packet (done 5) ∷ Small.packet (cut 6) ∷ []

are_ordinary : AllOrdinary items
are_ordinary = (omega arith, (omega arith, tt))

run-Tallied_example :
    Tallied kernel Small.packets kernel-IsQueue 1 items flying (run kernel 2 3 flying)
run-Tallied_example =
    run-Tallied kernel Small.packets kernel-IsQueue 2 3 1 items stop_packet
      (Small.packet (done 5) ∷ []) flying refl are_ordinary refl refl (omega arith) refl
      (omega arith)
