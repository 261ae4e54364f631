-- ===== src/Tests/System.antt =====
-- A small system for the tests: its state is the queue of a completion port, every read and write is
-- queued and completes in full, and a result of three bytes is reported for each.
use aiocp.Prelude.{
  ℕ, ap, ◌+◌, ◌-◌, ◌^◌, ◌≡◌, refl, none, some, List, [], ◌∷◌, ◌++◌, length, drop, replicate, leb,
  if◌then◌else◌, arith, le→leb, lt→leb, length-append, length-replicate,
}
use aiocp.Os.{Os, Call, success, failure, Dequeued, Memory, MemoryLaws}
use aiocp.Background.Queue.{IsQueue}

abbrev pub packet : ℕ → ℕ → Dequeued
packet key a = record {
  result = success 3;
  bytes_transferred = 3;
  completion_key = key;
  overlapped = some a;
}

abbrev timed_out : Dequeued
timed_out = record {
  result = failure 258;
  bytes_transferred = 0;
  completion_key = 0;
  overlapped = none;
}

abbrev oldest : List Dequeued → Dequeued × List Dequeued
oldest [] = (timed_out, [])
oldest (d ∷ ds) = (d, ds)

abbrev submit : ℕ → List Dequeued → Call × List Dequeued
submit a q = (failure 997, q ++ packet 0 a ∷ [])

abbrev pub system : Os (List Dequeued)
system = record {
  register_waker = λ a w q. q;
  wake = λ a q. q;
  cancel_io_ex = λ raw a q. q;
  read_file = λ raw n a q. submit a q;
  write_file = λ raw bytes a q. submit a q;
  connect_named_pipe = λ raw a q. submit a q;
  device_io_control = λ raw control bytes a q. submit a q;
  get_overlapped_result = λ raw a q. (success 3, q);
  create_io_completion_port = λ h p k n q. (success 1, q);
  get_queued_completion_status = λ raw q. oldest q;
  post_queued_completion_status = λ raw key a q. (success 0, q ++ packet key a ∷ []);
  close_handle = λ raw q. [];
  error_handle_eof = 38;
  error_broken_pipe = 109;
  error_operation_aborted = 995;
  invalid_handle_value = 2 ^ 64 - 1;
}

abbrev pub packets : List Dequeued → List Dequeued
packets q = q

pub system-IsQueue : IsQueue system packets
system-IsQueue = record { oldest = λ raw w d rest e. rw e (refl, refl); wake_keeps = λ a w. refl }

-- Memory that is allocated to the byte and filled with zeros.
abbrev pub zeros : Memory
zeros = record {
  with_capacity = λ n. replicate n 0;
  reserve = λ len block k. block ++ replicate (len + k - length block) 0;
  put_slice = λ block bytes.
      if leb (length bytes) (length block) then some (bytes ++ drop (length bytes) block) else none;
}

append_none : (xs : List ℕ) (n : ℕ) → n ≡ 0 → xs ++ replicate n 0 ≡ xs
append_none [] n e = rw e
append_none (x ∷ xs) n e = ap (λ ys. x ∷ ys) (append_none xs n e)

pub zeros_lem : MemoryLaws zeros
zeros_lem = record {
  with_capacity-le = λ n. omega (arith, length-replicate {A = ℕ} n 0);
  reserve-le = λ len block k. omega (
    arith,
    length-append block (replicate (len + k - length block) 0),
    length-replicate {A = ℕ} (len + k - length block) 0,
  );
  reserve_sufficient = λ len block k h. append_none block (len + k - length block) (omega arith);
  put_slice_fits = λ block bytes h. rw (le→leb (length bytes) (length block) h);
  put_slice_over = λ block bytes h. rw (lt→leb (length bytes) (length block) h);
}
