-- ===== src/Kernel.antt =====
-- What Windows owes: which calls it queues, and one packet for each of them.
use aiocp.Prelude.{
  ℕ, suc, ◌+◌, ◌≤◌, ◌<◌, ◌≡◌, ◌≢◌, none, some, List, ◌∷◌, length, count, ◌==◌, if◌then◌else◌, arith,
}
use aiocp.Io.{error_io_pending}
use aiocp.Os.{Os, Call, success, failure, Dequeued}
use aiocp.Port.{reserved_ports}
use aiocp.Pool.SocketPool.{Winsock}

-- The headers that a completion is owed for, after a call with that answer: a call that succeeds and
-- one that reports `ERROR_IO_PENDING` are both queued, any other is not.
abbrev pub queue_call : Call → ℕ → List ℕ → List ℕ
queue_call (success _) a owed = a ∷ owed
queue_call (failure e) a owed = if e == error_io_pending then a ∷ owed else owed

-- One entry is taken out of a list.
pub data Removed (a : ℕ) : List ℕ → List ℕ → Type 0 where
  here : {xs : List ℕ} → Removed a (a ∷ xs) xs
  there : {x : ℕ} {xs ys : List ℕ} → Removed a xs ys → Removed a (x ∷ xs) (x ∷ ys)

pub length-Removed : {a : ℕ} {xs ys : List ℕ} → Removed a xs ys → length xs ≡ suc (length ys)
length-Removed here = omega arith
length-Removed (there r) = omega (arith, length-Removed r)

pub count-Removed :
    {a : ℕ} {xs ys : List ℕ} (b : ℕ)
    → Removed a xs ys
    → count b xs ≡ (if a == b then 1 else 0) + count b ys
count-Removed b here = ground arith
count-Removed b (there r) = ground (arith, count-Removed b r)

-- What a dequeued packet settles.
pub record Settled (d : Dequeued) (before after : List ℕ) : Type 0 where
  pub header : ℕ
  pub overlapped : d.overlapped ≡ some header
  pub removed : Removed header before after

-- `owed` lists the headers, once for each operation in flight and each packet in the queue. No one
-- posts packets but those of a shutdown.
pub record IsKernel {W : Type 0} (os : Os W) (owed : W → List ℕ) : Type 0 where
  pub register_waker_keeps : (a k : ℕ) (w : W) → owed (os.register_waker a k w) ≡ owed w
  pub wake_keeps : (a : ℕ) (w : W) → owed (os.wake a w) ≡ owed w
  pub cancel_io_ex_keeps : (raw a : ℕ) (w : W) → owed (os.cancel_io_ex raw a w) ≡ owed w
  pub get_overlapped_result_keeps :
      (raw a : ℕ) (w : W) → owed (os.get_overlapped_result raw a w).1 ≡ owed w
  pub create_io_completion_port_keeps :
      (handle port key threads : ℕ) (w : W)
      → owed (os.create_io_completion_port handle port key threads w).1 ≡ owed w
  pub read_file_queues :
      (raw n a : ℕ) (w : W)
      → owed (os.read_file raw n a w).1 ≡ queue_call (os.read_file raw n a w).0 a (owed w)
  pub write_file_queues :
      (raw : ℕ) (bytes : List ℕ) (a : ℕ) (w : W)
      → owed (os.write_file raw bytes a w).1 ≡ queue_call (os.write_file raw bytes a w).0 a (owed w)
  pub connect_named_pipe_queues :
      (raw a : ℕ) (w : W)
      → owed (os.connect_named_pipe raw a w).1
        ≡ queue_call (os.connect_named_pipe raw a w).0 a (owed w)
  pub device_io_control_queues :
      (raw control : ℕ) (bytes : List ℕ) (a : ℕ) (w : W)
      → owed (os.device_io_control raw control bytes a w).1
        ≡ queue_call (os.device_io_control raw control bytes a w).0 a (owed w)
  pub ordinary_settles :
      (raw : ℕ) (w : W)
      → (os.get_queued_completion_status raw w).0.completion_key < reserved_ports
      → Settled
          (os.get_queued_completion_status raw w).0
          (owed w)
          (owed (os.get_queued_completion_status raw w).1)
  pub reserved_keeps :
      (raw : ℕ) (w : W)
      → reserved_ports ≤ (os.get_queued_completion_status raw w).0.completion_key
      → owed (os.get_queued_completion_status raw w).1 ≡ owed w
  pub reserved_null :
      (raw : ℕ) (w : W)
      → reserved_ports ≤ (os.get_queued_completion_status raw w).0.completion_key
      → (os.get_queued_completion_status raw w).0.overlapped ≡ none

-- The same of the calls of Winsock: only an accept is queued, and `WSASocketW` does not report
-- `ERROR_IO_PENDING`.
pub record IsWinsock {W : Type 0} (api : Winsock W) (owed : W → List ℕ) : Type 0 where
  pub wsa_socket_keeps : (info : ℕ) (w : W) → owed (api.wsa_socket info w).1 ≡ owed w
  pub wsa_socket_answers :
      (info e : ℕ) (w : W) → (api.wsa_socket info w).0 ≡ failure e → e ≢ error_io_pending
  pub closesocket_keeps : (socket : ℕ) (w : W) → owed (api.closesocket socket w) ≡ owed w
  pub wsa_duplicate_socket_keeps :
      (socket : ℕ) (w : W) → owed (api.wsa_duplicate_socket socket w).1 ≡ owed w
  pub accept_ex_queues :
      (listener socket len local_len remote_len a : ℕ) (w : W)
      → owed (api.accept_ex listener socket len local_len remote_len a w).1
        ≡ queue_call (api.accept_ex listener socket len local_len remote_len a w).0 a (owed w)
