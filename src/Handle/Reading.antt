-- ===== src/Handle/Reading.antt =====
-- The second poll of a read: the bytes that the caller gets, and where the cursor then is.
use aiocp.Prelude.{
  ℕ, ◌+◌, ◌^◌, ◌≤◌, ◌<◌, ◌≡◌, refl, Bool, some, List, length, take, get_elem?, arith, lt→ltb,
  length-take,
}
use aiocp.Prelude.Int.{pos, negsuc}
use aiocp.Io.{Outcome, ok, Poll, ready, in_progress, Code}
use aiocp.Os.{Os, Memory, MemoryLaws, success}
use aiocp.Task.{Header, header_lock, acquired, unlock_to_open}
use aiocp.Pool.BufferPool
use aiocp.Pool.BufferPool.{Buffer, BufferPool, capacity, release}
use aiocp.Pool.BufferPool.Fill.{release_lem}
use aiocp.Handle.Defs.{Ctx, ◌>>=◌, pure, on_pool, own_header, set_world, set_pool}
use aiocp.Handle.Guard.{
  cursor, locked, with_guard, close, handle_result, advance, drop_guard, return_permit,
}
use aiocp.Handle.Operation.{read_code}
use aiocp.Handle.Poll.{guarded, poll_read, finish_read, put_filled}
use aiocp.Handle.Locking.{entered, lock-granted}
use aiocp.Handle.Cursor.{advance-cursor}

pub header_lock-completed :
    (spurious : Bool) (code : Code) (h : Header)
    → h.lock ≡ negsuc code
    → (header_lock spurious code h).0 ≡ acquired in_progress
unfolding header_lock
header_lock-completed spurious code h e = ground arith

-- What a poll of a read leaves, for the bytes read.
pub record ReadOut {W : Type 0} (bytes : List ℕ) (c : Ctx W) (r : Outcome (Poll (List ℕ)) × Ctx W)
    : Type 0 where
  pub result : r.0 ≡ ok (ready bytes)
  pub moved : cursor (own_header r.1) ≡ cursor (own_header c) + length bytes
  pub lock : (own_header r.1).lock ≡ pos 0
  pub taken : r.1.handle.pool.taken ≡ 0

module _ {W : Type 0} (os : Os W) (m : Memory) where
  -- The system reports that `n` bytes were read.
  abbrev pub Reports : ℕ → ℕ → Ctx W → Type 0
  Reports n waker c =
      (os.get_overlapped_result c.handle.raw c.handle.header
        (os.register_waker c.handle.header waker c.shared.world)).0
      ≡ success n

  poll_read-completed :
      (spurious : Bool) (waker : ℕ) (room : List ℕ) (c : Ctx W)
      → c.shared.port.pending < 2 ^ 63
      → (own_header c).lock ≡ negsuc read_code
      → poll_read os m spurious waker room c
        ≡ close (finish_read os m room (entered os spurious read_code waker c))
  unfolding poll_read ◌>>=◌ guarded locked with_guard
  poll_read-completed spurious waker room c small e =
      rw (lock-granted os spurious read_code waker c (lt→ltb _ _ small))
        (rw (header_lock-completed spurious read_code (own_header c) e))

  -- The state in which the cursor is moved.
  abbrev collected : Bool → ℕ → Ctx W → Ctx W
  collected spurious waker c =
      let b = entered os spurious read_code waker c in
      set_pool (record c.handle.pool { released = c.handle.pool.released + 1 })
        (set_world (os.get_overlapped_result b.handle.raw b.handle.header b.shared.world).1 b)

  finish_read-collected :
      (spurious : Bool) (waker n : ℕ) (room : List ℕ) (b : Buffer) (c : Ctx W)
      → MemoryLaws m
      → c.handle.pool.released < c.handle.pool.taken
      → get_elem? c.handle.pool.buffers c.handle.pool.released ≡ some b
      → n ≤ capacity b
      → n ≤ length room
      → cursor (own_header (collected spurious waker c)) + n < 2 ^ 64
      → Reports n waker c
      → finish_read os m room (entered os spurious read_code waker c)
        ≡ (ok (ready (take n b.memory)), (advance n (collected spurious waker c)).1)
  unfolding finish_read ◌>>=◌ handle_result on_pool put_filled pure
  finish_read-collected spurious waker n room b c laws lent there full fits far reports =
      let size : length (take n b.memory) ≡ n = omega (arith, length-take n b.memory) in
      rw (reports, release_lem n c.handle.pool b lent there full)
        (rw (laws.put_slice_fits room (take n b.memory) (omega (arith, size)))
          (rw size (rw (advance-cursor n (collected spurious waker c) far).0)))

  entered_cursor :
      (spurious : Bool) (waker : ℕ) (c : Ctx W)
      → cursor (own_header (collected spurious waker c)) ≡ cursor (own_header c)
  unfolding header_lock
  entered_cursor spurious waker c = ground arith

  pub drop_guard-cursor : (c : Ctx W) → cursor (own_header (drop_guard c)) ≡ cursor (own_header c)
  unfolding drop_guard unlock_to_open return_permit
  drop_guard-cursor c = ground arith

  pub drop_guard-opens :
      (c : Ctx W)
      → ((own_header (drop_guard c)).lock ≡ pos 0) × ((drop_guard c).handle.pool.taken ≡ 0)
  unfolding drop_guard unlock_to_open return_permit BufferPool.clear
  drop_guard-opens c = (ground arith, refl)

  -- A read that has completed with `n` bytes, in a buffer that holds them and with room for them at
  -- the caller: the poll is ready with exactly the first `n` bytes of the buffer that was lent, the
  -- cursor moves past them, the lock is open and the buffer is given back. The port is up, and the
  -- cursor stays below 2 ^ 64.
  pub poll_read-ReadOut :
      (spurious : Bool) (waker n : ℕ) (room : List ℕ) (b : Buffer) (c : Ctx W)
      → MemoryLaws m
      → c.shared.port.pending < 2 ^ 63
      → (own_header c).lock ≡ negsuc read_code
      → c.handle.pool.released < c.handle.pool.taken
      → get_elem? c.handle.pool.buffers c.handle.pool.released ≡ some b
      → n ≤ capacity b
      → n ≤ length room
      → cursor (own_header c) + n < 2 ^ 64
      → Reports n waker c
      → ReadOut (take n b.memory) c (poll_read os m spurious waker room c)
  unfolding close
  poll_read-ReadOut spurious waker n room b c laws small done lent there full fits far reports =
      let start = collected spurious waker c in
      let same : cursor (own_header start) ≡ cursor (own_header c) =
        entered_cursor spurious waker c in
      let below : cursor (own_header start) + n < 2 ^ 64 = omega (arith, same) in
      let size : length (take n b.memory) ≡ n = omega (arith, length-take n b.memory) in
      let over = (advance n start).1 in
      rw (poll_read-completed spurious waker room c small done) (
        rw (finish_read-collected spurious waker n room b c laws lent there full fits below reports)
          (record {
            result = refl;
            moved =
                omega (arith, drop_guard-cursor over, (advance-cursor n start below).1, same, size);
            lock = (drop_guard-opens over).0;
            taken = (drop_guard-opens over).1;
          }))
