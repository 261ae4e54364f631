-- ===== src/Tests/Races.antt =====
-- A poll that meets the thread: it registers its waker and reads the lock, then the thread marks the
-- operation as completed, the poll finds itself refused, and the thread calls the waker.
use aiocp.Prelude.{
  arith, ℕ, ◌≡◌, ◌⊎◌, refl, true, false, Option, some, none, List, [], ◌∷◌, ◌==◌, if◌then◌else◌,
  ◌-◌, ◌^◌,
}
use aiocp.Prelude.Int.{pos}
use aiocp.Os.{Os, success, failure}
use aiocp.Task.{Header, LockResult, busy}
use aiocp.Background.Race.{
  Race, RaceReach, here, next, registers, exchanges, checks, loads, swaps, wakes, meeting,
  exchanged, checked, answered, finished,
}
use aiocp.Background.Race.Woken.{IsWaker, RaceReach-Served}
use aiocp.Background.Race.Linear.{lock_then_unlock, unlock_then_lock, pair, RaceReach-Linear}

-- The waker of each header, and the wakers that were called.
record Wakers : Type 0 where
  waiting : ℕ → Option ℕ
  called : List ℕ

abbrev call : Option ℕ → List ℕ → List ℕ
call none xs = xs
call (some k) xs = k ∷ xs

abbrev put : ℕ → Option ℕ → Wakers → Wakers
put a k w = record w { waiting = λ b. if b == a then k else w.waiting b }

abbrev wakers : Os Wakers
wakers = record {
  register_waker = λ a k w. put a (some k) w;
  wake = λ a w. record (put a none w) { called = call (w.waiting a) w.called };
  cancel_io_ex = λ raw a w. w;
  read_file = λ raw n a w. (failure 997, w);
  write_file = λ raw bytes a w. (failure 997, w);
  connect_named_pipe = λ raw a w. (failure 997, w);
  device_io_control = λ raw control bytes a w. (failure 997, w);
  get_overlapped_result = λ raw a w. (success 3, w);
  create_io_completion_port = λ h p k n w. (success 1, w);
  get_queued_completion_status = λ raw w. (
    record { result = success 0; bytes_transferred = 0; completion_key = 0; overlapped = none },
    w,
  );
  post_queued_completion_status = λ raw key a w. (success 0, w);
  close_handle = λ raw w. w;
  error_handle_eof = 38;
  error_broken_pipe = 109;
  error_operation_aborted = 995;
  invalid_handle_value = 2 ^ 64 - 1;
}

wakers-IsWaker : IsWaker wakers (λ w a. w.waiting a) (λ w. w.called)
wakers-IsWaker = record {
  register_waits = λ a k w. ground arith;
  register_calls = λ a k w. refl;
  wake_calls = λ a k w e. rw e refl;
}

abbrev flying : Header
flying = record { lock = pos 8; offset = 0; offset_high = 0; strong = 2 }

abbrev idle_wakers : Wakers
idle_wakers = record { waiting = λ a. none; called = [] }

abbrev refused : Race Wakers
refused = record {
  world = wakers.wake 5 (wakers.register_waker 5 9 idle_wakers);
  header = record flying { lock = aiocp.Prelude.Int.negsuc 7 };
  task = answered (busy true);
  thread = finished;
}

refused-RaceReach : RaceReach wakers 5 9 7 (meeting idle_wakers flying) refused
unfolding exchanged checked aiocp.Task.exchange_open aiocp.Task.after_failure
refused-RaceReach =
    next
      (next
        (next (next (next (next here (registers refl)) (exchanges false refl)) (loads refl))
          (swaps (pos 8) refl refl refl))
        (checks (pos 8) refl))
      (wakes true refl)

RaceReach-Served_example : refused.world.called ≡ 9 ∷ []
RaceReach-Served_example =
    RaceReach-Served wakers (λ w a. w.waiting a) (λ w. w.called) wakers-IsWaker 5 9 7 idle_wakers
      flying (busy true) refl refused-RaceReach refl refl

RaceReach-Linear_example :
    (pair (busy true) refused.header ≡ lock_then_unlock 7 flying)
    ⊎ (pair (busy true) refused.header ≡ unlock_then_lock 7 flying)
RaceReach-Linear_example =
    RaceReach-Linear wakers 5 9 7 flying refl idle_wakers (busy true) refused-RaceReach refl refl
