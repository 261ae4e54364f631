-- ===== src/Handle/Writing.antt =====
-- The second poll of a write, by the future and by the async trait: where the cursor then is.
use aiocp.Prelude.{ℕ, ◌+◌, ◌^◌, ◌<◌, ◌≡◌, refl, Bool, List, arith, lt→ltb}
use aiocp.Prelude.Int.{pos, negsuc}
use aiocp.Io.{Outcome, ok, Poll, ready}
use aiocp.Os.{Os, Memory}
use aiocp.Task.{header_lock}
use aiocp.Handle.Defs.{Ctx, ◌>>=◌, pure, own_header, set_world}
use aiocp.Handle.Guard.{cursor, locked, with_guard, close, handle_result, advance}
use aiocp.Handle.Operation.{Operation, transferred, write_code, code, collect, apply_to}
use aiocp.Handle.Poll as Polls
use aiocp.Handle.Poll.{
  State, complete, guarded, after, poll, poll_operation, finish_operation, finish_write,
}
use aiocp.Handle.Locking.{entered, lock-granted}
use aiocp.Handle.Cursor.{advance-cursor}
use aiocp.Handle.Reading.{header_lock-completed, Reports, drop_guard-cursor, drop_guard-opens}
use aiocp.Handle.Futures.{write, poll_write}

-- A write of `n` bytes is over, and the cursor has moved by `k`.
pub record WriteOut {W A : Type 0} (a : A) (k : ℕ) (c : Ctx W) (r : Outcome (Poll A)) (c' : Ctx W)
    : Type 0 where
  pub result : r ≡ ok (ready a)
  pub moved : cursor (own_header c') ≡ cursor (own_header c) + k
  pub lock : (own_header c').lock ≡ pos 0
  pub taken : c'.handle.pool.taken ≡ 0

module _ {W : Type 0} (os : Os W) (m : Memory) where
  -- The state once the result is there.
  abbrev reported : Bool → ℕ → Ctx W → Ctx W
  reported spurious waker c =
      let b = entered os spurious write_code waker c in
      set_world (os.get_overlapped_result b.handle.raw b.handle.header b.shared.world).1 b

  reported-cursor :
      (spurious : Bool) (waker : ℕ) (c : Ctx W)
      → cursor (own_header (reported spurious waker c)) ≡ cursor (own_header c)
  unfolding header_lock
  reported-cursor spurious waker c = ground arith

  finish_operation-write :
      (spurious : Bool) (waker n : ℕ) (bytes : List ℕ) (c : Ctx W)
      → Reports os m n waker c
      → finish_operation os m (Operation.write bytes) (entered os spurious write_code waker c)
        ≡ (ok (ready (transferred n)), reported spurious waker c)
  unfolding finish_operation ◌>>=◌ handle_result collect apply_to pure
  finish_operation-write spurious waker n bytes c reports = rw reports

  finish_write-advance :
      (spurious : Bool) (waker n : ℕ) (c : Ctx W)
      → cursor (own_header (reported spurious waker c)) + n < 2 ^ 64
      → Reports os m n waker c
      → finish_write os m (entered os spurious write_code waker c)
        ≡ (ok (ready n), (advance n (reported spurious waker c)).1)
  unfolding finish_write ◌>>=◌ handle_result pure
  finish_write-advance spurious waker n c far reports =
      rw reports (rw (advance-cursor n (reported spurious waker c) far).0)

  poll_write-completed :
      (spurious : Bool) (waker : ℕ) (bytes : List ℕ) (c : Ctx W)
      → c.shared.port.pending < 2 ^ 63
      → (own_header c).lock ≡ negsuc write_code
      → poll_write os m spurious waker bytes c
        ≡ close (finish_write os m (entered os spurious write_code waker c))
  unfolding poll_write Polls.poll_write ◌>>=◌ guarded locked with_guard
  poll_write-completed spurious waker bytes c small e =
      rw (lock-granted os spurious write_code waker c (lt→ltb _ _ small))
        (rw (header_lock-completed spurious write_code (own_header c) e))

  poll-write_completed :
      (spurious : Bool) (waker : ℕ) (bytes : List ℕ) (c : Ctx W)
      → c.shared.port.pending < 2 ^ 63
      → (own_header c).lock ≡ negsuc write_code
      → poll os m spurious waker (write bytes) c
        ≡ after (Operation.write bytes) (
            close (
              finish_operation os m
                (Operation.write bytes)
                (entered os spurious write_code waker c)))
  unfolding write poll poll_operation code ◌>>=◌ guarded locked with_guard
  poll-write_completed spurious waker bytes c small e =
      rw (lock-granted os spurious write_code waker c (lt→ltb _ _ small))
        (rw (header_lock-completed spurious write_code (own_header c) e))

  -- A write that has completed with `n` bytes, polled as a future of `Handle::write` and through
  -- the async trait: both report `n`, leave the lock open and the pool with nothing taken, but only
  -- the trait moves the cursor by `n`; the future leaves it where it was. The port is up, and the
  -- cursor plus `n` is below 2 ^ 64.
  pub write-poll_write :
      (spurious : Bool) (waker n : ℕ) (bytes : List ℕ) (c : Ctx W)
      → c.shared.port.pending < 2 ^ 63
      → (own_header c).lock ≡ negsuc write_code
      → cursor (own_header c) + n < 2 ^ 64
      → Reports os m n waker c
      → (let (r, _, c') = poll os m spurious waker (write bytes) c in
          WriteOut (transferred n) 0 c r c')
        × (let (r, c') = poll_write os m spurious waker bytes c in WriteOut n n c r c')
  unfolding close after
  write-poll_write spurious waker n bytes c small done far reports =
      let start = reported spurious waker c in
      let same = reported-cursor spurious waker c in
      let below : cursor (own_header start) + n < 2 ^ 64 = omega (arith, same) in
      let over = (advance n start).1 in
      (
        rw (poll-write_completed spurious waker bytes c small done) (
            rw (finish_operation-write spurious waker n bytes c reports) (record {
              result = refl;
              moved = omega (arith, drop_guard-cursor os m start, same);
              lock = (drop_guard-opens os m start).0;
              taken = (drop_guard-opens os m start).1;
            })),
        rw (poll_write-completed spurious waker bytes c small done) (
            rw (finish_write-advance spurious waker n c below reports) (record {
              result = refl;
              moved =
                  omega
                    (arith, drop_guard-cursor os m over, (advance-cursor n start below).1, same);
              lock = (drop_guard-opens os m over).0;
              taken = (drop_guard-opens os m over).1;
            })),
      )
