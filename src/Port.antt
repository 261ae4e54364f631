-- ===== src/Port.antt =====
-- src/completion_port.rs: permits, the two ways to dequeue a completion, and its release.
pub mod Permit
use aiocp.Prelude.{
  ℕ, zero, suc, ◌+◌, ◌-◌, ◌%◌, ◌^◌, Bool, Option, none, some, ltb, leb, ◌==◌, if◌then◌else◌,
}
use aiocp.Io.{
  Outcome, ok, err, panic, IoError, os_error, shutting_down, reserved_port, reserved_status,
}
use aiocp.Os.{Os, Call, success, failure, Dequeued}
use aiocp.Task.{Header, unlock}
use aiocp.Shared.{Port, Shared, with_world, with_port, with_header}

-- `isize` and `usize` have 64 bits; an `isize` is its bit pattern.
abbrev pub word : ℕ
word = 2 ^ 64

abbrev pub isize_min : ℕ
isize_min = 2 ^ 63

abbrev pub is_nonneg : ℕ → Bool
is_nonneg x = ltb x (2 ^ 63)

-- `SHUTDOWN_PORT` and `RESERVED_PORTS`, which is `!0b1111`.
abbrev pub shutdown_port : ℕ
shutdown_port = 2 ^ 64 - 1

abbrev pub reserved_ports : ℕ
reserved_ports = 2 ^ 64 - 16

-- `fetch_add` and `fetch_sub` on `pending` wrap.
abbrev pub fetch_add : ℕ → Port → Port
fetch_add n p = record p { pending = (p.pending + n) % 2 ^ 64 }

abbrev pub fetch_sub : ℕ → Port → Port
fetch_sub n p = record p { pending = (p.pending + 2 ^ 64 - n) % 2 ^ 64 }

-- The two atomic operations of `CompletionPort::permit`: the addition, with whether the old value
-- grants the permit, and the subtraction that takes a refused one back.
abbrev pub attempt : Port → Bool × Port
attempt p = (is_nonneg p.pending, fetch_add 1 p)

abbrev pub withdraw : Port → Port
withdraw p = fetch_sub 1 p

-- `CompletionPort::permit`, with nothing in between; Permit has its two operations apart.
unfoldable pub permit : Port → Outcome (Unit {0}) × Port
permit p =
    let (granted, p') = attempt p in
    if granted then (ok tt, p') else (err shutting_down, withdraw p')

-- `drop` of a `CompletionPortPermit`
unfoldable pub drop_permit : Port → Port
drop_permit p = fetch_sub 1 p

pub data CompletionOutcome : Type 0 where
  completed aborted errored : CompletionOutcome

pub record CompletionStatus : Type 0 where
  pub header : Option ℕ
  pub completion_key : ℕ
  pub bytes_transferred : ℕ
  pub outcome : CompletionOutcome

-- `CompletionPoll`; `shutdown` has the count of pending operations.
pub data CompletionPoll : Type 0 where
  shutdown : ℕ → CompletionPoll
  status : CompletionStatus → CompletionPoll

abbrev pub release_arc : Header → Header
release_arc h = record h { strong = h.strong - 1 }

module _ {W : Type 0} where
  -- `drop` of a `CompletionStatus`, which owns one count of its header.
  unfoldable pub drop_status : Option ℕ → Shared W → Shared W
  drop_status none s = s
  drop_status (some a) s = with_header a (release_arc (s.heap a)) s

module _ {W : Type 0} (os : Os W) where
  unfoldable pub posted : Call → Outcome (Unit {0})
  posted (success _) = ok tt
  posted (failure e) = err (os_error e)

  outcome_of : Call → CompletionOutcome
  outcome_of (success _) = completed
  outcome_of (failure e) = if e == os.error_operation_aborted then aborted else errored

  unfoldable pub status_of : Dequeued → CompletionStatus
  unfolding outcome_of
  status_of d = record {
    header = d.overlapped;
    completion_key = d.completion_key;
    bytes_transferred = d.bytes_transferred;
    outcome = outcome_of d.result;
  }

  -- `CompletionPort::get_queued_completion_status`
  unfoldable pub get_queued_completion_status : Shared W → CompletionStatus × Shared W
  unfolding status_of
  get_queued_completion_status s =
      let (d, w) = os.get_queued_completion_status s.port.raw s.world in
      (status_of d, with_world w s)

  -- The body of `CompletionPort::poll` after the status is there.
  unfoldable pub poll_status : CompletionStatus → Shared W → Outcome CompletionPoll × Shared W
  poll_status st s =
      if leb reserved_ports st.completion_key
      then (if st.completion_key == shutdown_port
          then (
            ok (shutdown s.port.pending),
            drop_status st.header (with_port (fetch_add isize_min s.port) s),
          )
          else (err reserved_status, drop_status st.header s))
      else (ok (status st), with_port (fetch_sub 1 s.port) s)

  -- `CompletionPort::poll`
  unfoldable pub poll : Shared W → Outcome CompletionPoll × Shared W
  poll s = let (st, s') = get_queued_completion_status s in poll_status st s'

  -- The loop of `CompletionPort::poll_during_shutdown`; `none` means that the fuel ran out.
  unfoldable pub poll_during_shutdown : ℕ → Shared W → Option (Outcome CompletionStatus) × Shared W
  poll_during_shutdown zero s = (none, s)
  poll_during_shutdown (suc fuel) s =
      let (st, s') = get_queued_completion_status s in
      let again = poll_during_shutdown fuel (drop_status st.header s') in
      if leb reserved_ports st.completion_key
      then (if st.completion_key == shutdown_port
          then again
          else (some (err reserved_status), drop_status st.header s'))
      else (some (ok st), s')

  -- `CompletionPort::post`, which passes on the overlapped pointer, and `CompletionPort::shutdown`.
  unfoldable pub post : ℕ → ℕ → Shared W → Outcome (Unit {0}) × Shared W
  unfolding posted
  post key overlapped s =
      let (call, w) = os.post_queued_completion_status s.port.raw key overlapped s.world in
      (posted call, with_world w s)

  unfoldable pub request_shutdown : Shared W → Outcome (Unit {0}) × Shared W
  unfolding post
  request_shutdown s = post shutdown_port 0 s

  -- `drop` of `Inner`, when the last handle on the port is gone; the result is ignored.
  unfoldable pub drop_inner : Shared W → Shared W
  drop_inner s = with_world (os.close_handle s.port.raw s.world) s

  -- `Header::release`: the lock is worked into the completed state, and only then the task is woken.
  unfoldable pub release_header : ℕ → ℕ → Shared W → Shared W
  unfolding unlock
  release_header spurious a s =
      let (h, done) = unlock spurious (s.heap a) in
      let s' = with_header a h s in if done then with_world (os.wake a s'.world) s' else s'

  -- `CompletionStatus::release` and `CompletionStatus::unlock`
  unfoldable pub release : ℕ → Option ℕ → Shared W → Shared W
  unfolding release_header
  release spurious none s = s
  release spurious (some a) s = release_header spurious a s

unfoldable pub unlock_status : {W : Type 0} → ℕ → Option ℕ → Shared W → Shared W
unlock_status spurious none s = s
unlock_status spurious (some a) s = with_header a (unlock spurious (s.heap a)).0 s
