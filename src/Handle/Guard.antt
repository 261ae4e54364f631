-- ===== src/Handle/Guard.antt =====
-- `Handle::lock`, cancellation, and `LockGuard`.
use aiocp.Prelude.{
  ℕ, ◌+◌, ◌*◌, ◌/◌, ◌-◌, ◌^◌, Bool, true, false, Option, none, some, ltb, ◌==◌, if◌then◌else◌,
}
use Prim.Native.Nat.{bit_or, bit_and}
use aiocp.Io.{
  Code, Outcome, ok, err, panic, Poll, pending, ready, OverlappedState, idle, in_progress,
  OverlappedResult, empty, os_error, handle_io_pending,
}
use aiocp.Os.{Os, Call, success, failure}
use aiocp.Task
use aiocp.Task.{Header, LockResult, acquired, busy, header_lock, unlock_to_open}
use aiocp.Port.{permit, drop_permit, release_arc}
use aiocp.Pool.BufferPool
use aiocp.Handle.Defs.{
  Ctx, M, ◌>>=◌, ◌>>◌, modify, own_header, set_header, set_world, set_port, set_pool,
}

-- The 64-bit cursor of an `OVERLAPPED`: `(s.Offset as u64) | ((s.OffsetHigh as u64) << 32)`.
abbrev pub cursor : Header → ℕ
cursor h = bit_or h.offset (h.offset_high * 2 ^ 32)

module _ {W : Type 0} where
  -- `self.port.permit()?`
  unfoldable pub take_permit : M W (Unit {0})
  unfolding permit
  take_permit c = let (r, p) = permit c.shared.port in (r, set_port p c)

  unfoldable pub return_permit : Ctx W → Ctx W
  unfolding drop_permit
  return_permit c = set_port (drop_permit c.shared.port) c

  -- The lock of the handle's own header.
  unfoldable pub lock_header : Bool → Code → M W LockResult
  unfolding header_lock
  lock_header spurious code c =
      let (r, h) = header_lock spurious code (own_header c) in (ok r, set_header h c)

  -- `drop` of a `LockGuard`: the pool is cleared, the lock opened and the permit returned.
  unfoldable pub drop_guard : Ctx W → Ctx W
  unfolding return_permit unlock_to_open BufferPool.clear
  drop_guard c =
      let c' = set_pool (BufferPool.clear c.handle.pool) c in
      return_permit (set_header (unlock_to_open (own_header c')) c')

  -- `LockGuard::prepare`: the pool is cleared, and the system gets a count of the header.
  unfoldable pub prepare : Ctx W → Ctx W
  unfolding BufferPool.clear
  prepare c =
      let c' = set_pool (BufferPool.clear c.handle.pool) c in
      let h = own_header c' in set_header (record h { strong = h.strong + 1 }) c'

  -- `drop` of an `Overlapped`: the count is taken back.
  unfoldable pub drop_overlapped : Ctx W → Ctx W
  drop_overlapped c = set_header (release_arc (own_header c)) c

  -- What the scope of a guard does on its way out. Only a submission returns `Poll::Pending` from
  -- inside the scope, and it has forgotten the guard.
  unfoldable pub close : {A : Type 0} → Outcome (Poll A) × Ctx W → Outcome (Poll A) × Ctx W
  unfolding drop_guard
  close (ok pending, c) = (ok pending, c)
  close (ok (ready a), c) = (ok (ready a), drop_guard c)
  close (err e, c) = (err e, drop_guard c)
  close (panic, c) = (panic, drop_guard c)

  unfoldable pub with_guard : {A : Type 0} → M W (Poll A) → M W (Poll A)
  with_guard body c = close (body c)

  -- `handle_io_pending(result)?`, then `forget((guard, overlapped))`; on the other ways out the
  -- `Overlapped` is dropped.
  unfoldable pub forget_or_drop :
      {A : Type 0} → Outcome (Unit {0}) → Ctx W → Outcome (Poll A) × Ctx W
  unfolding drop_overlapped
  forget_or_drop (ok _) c = (ok pending, c)
  forget_or_drop (err e) c = (err e, drop_overlapped c)
  forget_or_drop panic c = (panic, drop_overlapped c)

  -- The idle branch of a poll: `issue` is the operation's `prepare`.
  unfoldable pub submit : {A : Type 0} → M W (Unit {0}) → M W (Poll A)
  submit issue c = let (r, c') = issue (prepare c) in forget_or_drop (handle_io_pending r) c'

  -- `LockGuard::advance`; the checked addition panics past 64 bits.
  unfoldable pub advance : ℕ → M W (Unit {0})
  advance amount c =
      let h = own_header c in
      let n = cursor h + amount in
      if ltb n (2 ^ 64)
      then (
        ok tt,
        set_header (record h { offset = bit_and n (2 ^ 32 - 1); offset_high = n / 2 ^ 32 }) c,
      )
      else (panic, c)

module _ {W : Type 0} (os : Os W) where
  -- `Handle::cancel_immediate`
  unfoldable pub cancel_immediate : Ctx W → Ctx W
  cancel_immediate c = set_world (os.cancel_io_ex c.handle.raw c.handle.header c.shared.world) c

  -- `drop` of a `Handle`, which is `cancel_if_pending`.
  unfoldable pub cancel_if_pending : Ctx W → Ctx W
  unfolding cancel_immediate Task.state
  cancel_if_pending c = elim (Task.state (own_header c)) [
    | idle ↦ c
    | in_progress ↦ cancel_immediate c
  ]

  -- `Handle::register_by_ref`
  unfoldable pub register_by_ref : ℕ → Ctx W → Ctx W
  register_by_ref waker c = set_world (os.register_waker c.handle.header waker c.shared.world) c

  -- The match on the lock's result in `Handle::lock`. Where the lock is busy the permit is dropped.
  unfoldable pub locked : LockResult → M W (Option OverlappedState)
  unfolding cancel_immediate return_permit
  locked (acquired state) c = (ok (some state), c)
  locked (busy true) c = (ok none, return_permit (cancel_immediate c))
  locked (busy false) c = (ok none, return_permit c)

  -- `Handle::lock`; `some` is a guard with its state.
  unfoldable pub lock : Bool → Code → ℕ → M W (Option OverlappedState)
  lock spurious code waker = do
    take_permit
    modify (register_by_ref waker)
    r ← lock_header spurious code
    locked r

  unfoldable pub result_of : Call → Outcome OverlappedResult
  result_of (success n) = ok (record { bytes_transferred = n })
  result_of (failure e) =
      if e == os.error_handle_eof
      then ok empty
      else if e == os.error_broken_pipe
      then ok empty
      else err (os_error e)

  -- `LockGuard::handle_result`
  unfoldable pub handle_result : M W OverlappedResult
  unfolding result_of
  handle_result c =
      let (call, w) = os.get_overlapped_result c.handle.raw c.handle.header c.shared.world in
      (result_of call, set_world w c)
