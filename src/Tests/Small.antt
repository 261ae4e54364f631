-- ===== src/Tests/Small.antt =====
-- A small system that keeps its debts: a queue of packets, a port and a handle for each number.
use aiocp.Prelude.{
  ℕ, ◌-◌, ◌^◌, ◌≤◌, ◌<◌, ◌≡◌, refl, ap, true, false, some, none, List, [], ◌∷◌, ◌++◌, length, count,
  arith, ◌==◌, if◌then◌else◌, Bool-cases, inl, inr,
}
use aiocp.Prelude.Int.{ℤ, pos}
use aiocp.Os.{Os, Call, success, failure, Dequeued}
use aiocp.Background.Queue.{IsQueue}
use aiocp.Kernel.{IsKernel, IsWinsock, Settled, Removed, here, there}
use aiocp.Port.{shutdown_port, reserved_ports}
use aiocp.Pool.BufferPool
use aiocp.Pool.SocketPool
use aiocp.Pool.SocketPool.{Winsock}
use aiocp.Handle.Operation.{read}
use aiocp.Handle.Poll.{State, running, poll}
use aiocp.System.{System, polled, polls, Reach, next, ctx_of, put_ctx}
use aiocp.System.Invariant.{Inv}
use aiocp.Tests.System.{zeros}

-- What is in the queue: the packet of an operation that finished or was cut off, or a shutdown.
pub data Entry : Type 0 where
  done cut : ℕ → Entry
  stop : Entry

abbrev pub stop_packet : Dequeued
stop_packet = record {
  result = success 0;
  bytes_transferred = 0;
  completion_key = shutdown_port;
  overlapped = none;
}

-- An operation that is cut off reports `ERROR_OPERATION_ABORTED`.
abbrev pub cut_packet : ℕ → Dequeued
cut_packet a = record {
  result = failure 995;
  bytes_transferred = 0;
  completion_key = 0;
  overlapped = some a;
}

abbrev pub take_entry : List Entry → Dequeued × List Entry
take_entry [] = (stop_packet, [])
take_entry (done a ∷ q) = (
  record { result = success 3; bytes_transferred = 3; completion_key = 0; overlapped = some a },
  q,
)
take_entry (cut a ∷ q) = (cut_packet a, q)
take_entry (stop ∷ q) = (stop_packet, q)

abbrev submit : ℕ → List Entry → Call × List Entry
submit a q = (failure 997, q ++ done a ∷ [])

-- A cancellation cuts off what there is for a header.
abbrev cut_entry : ℕ → Entry → Entry
cut_entry a (done b) = if b == a then cut b else done b
cut_entry a (cut b) = cut b
cut_entry a stop = stop

abbrev cut_off : ℕ → List Entry → List Entry
cut_off a [] = []
cut_off a (e ∷ q) = cut_entry a e ∷ cut_off a q

abbrev pub kernel : Os (List Entry)
kernel = record {
  register_waker = λ a w q. q;
  wake = λ a q. q;
  cancel_io_ex = λ raw a q. cut_off a q;
  read_file = λ raw n a q. submit a q;
  write_file = λ raw bytes a q. submit a q;
  connect_named_pipe = λ raw a q. submit a q;
  device_io_control = λ raw control bytes a q. submit a q;
  get_overlapped_result = λ raw a q. (success 3, q);
  create_io_completion_port = λ h p k n q. (success 1, q);
  get_queued_completion_status = λ raw q. take_entry q;
  post_queued_completion_status = λ raw key a q. (success 0, q ++ stop ∷ []);
  close_handle = λ raw q. [];
  error_handle_eof = 38;
  error_broken_pipe = 109;
  error_operation_aborted = 995;
  invalid_handle_value = 2 ^ 64 - 1;
}

-- The newest operation first.
abbrev pub owed : List Entry → List ℕ
owed [] = []
owed (done a ∷ q) = owed q ++ a ∷ []
owed (cut a ∷ q) = owed q ++ a ∷ []
owed (stop ∷ q) = owed q

owed_submit : (a : ℕ) (q : List Entry) → owed (q ++ done a ∷ []) ≡ a ∷ owed q
owed_submit a [] = refl
owed_submit a (done b ∷ q) = ap (λ xs. xs ++ b ∷ []) (owed_submit a q)
owed_submit a (cut b ∷ q) = ap (λ xs. xs ++ b ∷ []) (owed_submit a q)
owed_submit a (stop ∷ q) = owed_submit a q

owed-cut_off : (a : ℕ) (q : List Entry) → owed (cut_off a q) ≡ owed q
owed-cut_off a [] = refl
owed-cut_off a (done b ∷ q) = elim (Bool-cases (b == a)) [
  | inl e ↦ rw e (ap (λ xs. xs ++ b ∷ []) (owed-cut_off a q))
  | inr e ↦ rw e (ap (λ xs. xs ++ b ∷ []) (owed-cut_off a q))
]
owed-cut_off a (cut b ∷ q) = ap (λ xs. xs ++ b ∷ []) (owed-cut_off a q)
owed-cut_off a (stop ∷ q) = owed-cut_off a q

Removed-last : (a : ℕ) (xs : List ℕ) → Removed a (xs ++ a ∷ []) xs
Removed-last a [] = here
Removed-last a (x ∷ xs) = there (Removed-last a xs)

settles :
    (q : List Entry)
    → (take_entry q).0.completion_key < reserved_ports
    → Settled (take_entry q).0 (owed q) (owed (take_entry q).1)
settles [] h = absurd (omega arith)
settles (done a ∷ q) h = record { header = a; overlapped = refl; removed = Removed-last a (owed q) }
settles (cut a ∷ q) h = record { header = a; overlapped = refl; removed = Removed-last a (owed q) }
settles (stop ∷ q) h = absurd (omega arith)

keeps :
    (q : List Entry)
    → reserved_ports ≤ (take_entry q).0.completion_key
    → owed (take_entry q).1 ≡ owed q
keeps [] h = refl
keeps (done a ∷ q) h = absurd (omega arith)
keeps (cut a ∷ q) h = absurd (omega arith)
keeps (stop ∷ q) h = refl

null :
    (q : List Entry)
    → reserved_ports ≤ (take_entry q).0.completion_key
    → (take_entry q).0.overlapped ≡ none
null [] h = refl
null (done a ∷ q) h = absurd (omega arith)
null (cut a ∷ q) h = absurd (omega arith)
null (stop ∷ q) h = refl

pub kernel-IsKernel : IsKernel kernel owed
kernel-IsKernel = record {
  register_waker_keeps = λ a k w. refl;
  wake_keeps = λ a w. refl;
  cancel_io_ex_keeps = λ raw a w. owed-cut_off a w;
  get_overlapped_result_keeps = λ raw a w. refl;
  create_io_completion_port_keeps = λ h p k n w. refl;
  read_file_queues = λ raw n a w. owed_submit a w;
  write_file_queues = λ raw bytes a w. owed_submit a w;
  connect_named_pipe_queues = λ raw a w. owed_submit a w;
  device_io_control_queues = λ raw control bytes a w. owed_submit a w;
  ordinary_settles = λ raw w. settles w;
  reserved_keeps = λ raw w. keeps w;
  reserved_null = λ raw w. null w;
}

abbrev pub winsock : Winsock (List Entry)
winsock = record {
  wsa_socket = λ info q. (success 9, q);
  closesocket = λ s q. q;
  wsa_duplicate_socket = λ s q. (success 77, q);
  accept_ex = λ s t b n k a q. submit a q;
}

pub winsock-IsWinsock : IsWinsock winsock owed
winsock-IsWinsock = record {
  wsa_socket_keeps = λ info w. refl;
  wsa_socket_answers = λ info e w h. cc;
  closesocket_keeps = λ s w. refl;
  wsa_duplicate_socket_keeps = λ s w. refl;
  accept_ex_queues = λ s t b n k a w. owed_submit a w;
}

abbrev pub packet : Entry → Dequeued
packet (done a) = record {
  result = success 3;
  bytes_transferred = 3;
  completion_key = 0;
  overlapped = some a;
}
packet (cut a) = cut_packet a
packet stop = stop_packet

abbrev pub packets : List Entry → List Dequeued
packets [] = []
packets (e ∷ q) = packet e ∷ packets q

abbrev head : List Dequeued → Dequeued → Dequeued
head [] d = d
head (x ∷ xs) d = x

abbrev tail : List Dequeued → List Dequeued
tail [] = []
tail (x ∷ xs) = xs

oldest :
    (q : List Entry) (d : Dequeued) (rest : List Dequeued)
    → packets q ≡ d ∷ rest
    → ((take_entry q).0 ≡ d) × (packets (take_entry q).1 ≡ rest)
oldest [] d rest e = cc
oldest (done a ∷ q) d rest e = (ap (λ xs. head xs d) e, ap tail e)
oldest (cut a ∷ q) d rest e = (ap (λ xs. head xs d) e, ap tail e)
oldest (stop ∷ q) d rest e = (ap (λ xs. head xs d) e, ap tail e)

pub kernel-IsQueue : IsQueue kernel packets
kernel-IsQueue = record { oldest = λ raw q d rest e. oldest q d rest e; wake_keeps = λ a w. refl }

-- A port with a handle for each number, at a header of its own, and nothing in flight.
abbrev pub with_lock : ℤ → List Entry → System (List Entry)
with_lock lock q = record {
  shared = record {
    world = q;
    port = record { raw = 1; pending = 0 };
    heap = λ a. record { lock = lock; offset = 0; offset_high = 0; strong = 1 };
  };
  handles = λ i. record { raw = i; header = i; pool = BufferPool.new 4096 };
  sockets = λ i. SocketPool.new 1;
  alive = λ i. true;
}

pub with_lock-Inv : (lock : ℤ) (q : List Entry) → owed q ≡ [] → Inv owed (with_lock lock q)
with_lock-Inv lock q e = record {
  counted = omega (arith, ap length e);
  books = record {
    held = λ i a h. omega (arith, ap (count a) e);
    distinct = λ i j h. h;
    known = λ a h. absurd (omega (arith, ap (count a) e));
  };
}

abbrev pub fresh : List Entry → System (List Entry)
fresh q = with_lock (pos 0) q

pub fresh-Inv : (q : List Entry) → owed q ≡ [] → Inv owed (fresh q)
fresh-Inv q e = with_lock-Inv (pos 0) q e

abbrev pub reading : State
reading = running (read (0 ∷ 0 ∷ 0 ∷ []))

-- The handle 5 is polled for a read.
abbrev pub busy : System (List Entry)
busy = put_ctx (fresh []) 5 (poll kernel zeros false 9 reading (ctx_of (fresh []) 5)).2

pub busy-Reach : Reach kernel winsock zeros owed (fresh []) busy
busy-Reach = next Reach.here (polls (polled 5 false 9 reading refl (omega arith)))
