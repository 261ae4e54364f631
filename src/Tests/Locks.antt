-- ===== src/Tests/Locks.antt =====
-- Tests of the lock word of a header and of the permits of a port.
use aiocp.Prelude.{◌+◌, ◌^◌, ◌≤◌, ◌≡◌, refl, false, List, [], ◌∷◌, arith}
use aiocp.Prelude.Int.{pos, negsuc}
use aiocp.Io.{idle, in_progress}
use aiocp.Task.{Header, acquired, header_lock, unlock}
use aiocp.Task.Lock.{phase, open_phase, header_lock-answer}
use aiocp.Task.Rounds.{header_lock-unlock}
use aiocp.Shared.{Port}
use aiocp.Port.Permit.{
  Request, acquire, begin, take_back, give_back, Counter, serve, serve-shutting_down,
}

-- A read in flight, a completed read, and an open header.
abbrev flying : Header
flying = record { lock = pos 8; offset = 0; offset_high = 0; strong = 2 }

abbrev done : Header
done = record { lock = negsuc 7; offset = 0; offset_high = 0; strong = 1 }

abbrev opened : Header
opened = record { lock = pos 0; offset = 0; offset_high = 0; strong = 1 }

header_lock-answer_example :
    ((header_lock false 7 done).0 ≡ acquired in_progress)
    × (phase (header_lock false 7 done).1 ≡ open_phase)
    × ((header_lock false 7 done).1 ≡ record done { lock = (header_lock false 7 done).1.lock })
header_lock-answer_example = header_lock-answer false 7 done

other_idle : (header_lock false 9 done).0 ≡ acquired idle
unfolding header_lock
other_idle = refl

header_lock-unlock_example :
    ((header_lock false 7 (unlock 1 (header_lock false 7 opened).1).0).0 ≡ acquired in_progress)
    × (phase (header_lock false 7 (unlock 1 (header_lock false 7 opened).1).0).1 ≡ open_phase)
header_lock-unlock_example = header_lock-unlock false 1 7 7 opened refl

abbrev port : Port
port = record { raw = 1; pending = 2 }

-- One permit is out, and one completion more is counted.
abbrev stopped : Counter
stopped = record { port = record port { pending = 2 ^ 63 + 2 }; held = 1; refused = 0 }

abbrev requests : List Request
requests = begin ∷ acquire ∷ give_back ∷ begin ∷ take_back ∷ give_back ∷ take_back ∷ []

serve-shutting_down_example :
    ((serve requests stopped).port.pending
      ≡ 2 ^ 63 + 1 + (serve requests stopped).held + (serve requests stopped).refused)
    × ((serve requests stopped).held ≤ 1)
serve-shutting_down_example = serve-shutting_down requests stopped 1 refl (omega arith)
