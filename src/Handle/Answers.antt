-- ===== src/Handle/Answers.antt =====
-- What a poll answers and leaves behind: after a shutdown, on a busy header, and when it is done.
use aiocp.Prelude.{
  ℕ, ◌^◌, ◌≤◌, ◌<◌, ◌≡◌, refl, ap, Bool, true, false, Option, none, some, List, arith, lt→ltb,
  le→ltb,
}
use aiocp.Prelude.Int.{pos}
use aiocp.Io.{
  Code, Outcome, ok, err, panic, Poll, pending, ready, OverlappedState, idle, in_progress,
  shutting_down,
}
use aiocp.Os.{Os, Memory}
use aiocp.Task.{LockResult, acquired, busy}
use aiocp.Task.Lock.{phase, submitted, header_lock-busy_mismatch, header_lock-busy_same}
use aiocp.Handle.Defs.{Ctx, M, ◌>>=◌, pure, own_header}
use aiocp.Handle.Guard.{locked, with_guard, close, drop_guard, return_permit, cancel_immediate}
use aiocp.Handle.Operation.{Operation, Output, code, read_code, write_code}
use aiocp.Handle.Poll.{running, guarded, after, poll, poll_operation, poll_read, poll_write}
use aiocp.Handle.Locking.{entered, reply, refused, lock-granted, lock-refused}

module _ {W : Type 0} where
  pub refused-same : (c : Ctx W) → c.shared.port.pending < 2 ^ 64 → refused c ≡ c
  refused-same c small = ground arith

module _ {W : Type 0} (os : Os W) (m : Memory) where
  -- Once the port shuts down, so that its counter is negative, a poll of an operation that has not
  -- completed answers with that error. It changes nothing: no system call is made, no waker is
  -- registered, and the permit that it counted is taken back.
  pub poll-refused :
      (spurious : Bool) (waker : ℕ) (op : Operation) (c : Ctx W)
      → 2 ^ 63 ≤ c.shared.port.pending
      → c.shared.port.pending < 2 ^ 64
      → poll os m spurious waker (running op) c ≡ (err shutting_down, running op, c)
  unfolding poll poll_operation ◌>>=◌ after
  poll-refused spurious waker op c negative small =
      rw (lock-refused os spurious (code op) waker c (le→ltb _ _ negative))
        (ap (λ b. (err shutting_down, running op, b)) (refused-same c small))

  -- So do a read and a write through the async traits.
  pub poll_read_write-refused :
      (spurious : Bool) (waker : ℕ) (bytes : List ℕ) (c : Ctx W)
      → 2 ^ 63 ≤ c.shared.port.pending
      → c.shared.port.pending < 2 ^ 64
      → (poll_read os m spurious waker bytes c ≡ (err shutting_down, c))
        × (poll_write os m spurious waker bytes c ≡ (err shutting_down, c))
  unfolding poll_read poll_write ◌>>=◌
  poll_read_write-refused spurious waker bytes c negative small = (
    rw (lock-refused os spurious read_code waker c (le→ltb _ _ negative))
        (ap (λ b. (err shutting_down, b)) (refused-same c small)),
    rw (lock-refused os spurious write_code waker c (le→ltb _ _ negative))
        (ap (λ b. (err shutting_down, b)) (refused-same c small)),
  )

  -- What a poll of a busy header leaves behind: the waker is registered and the operation that is in
  -- flight is cancelled; port, headers and pool are as before.
  pub record Cancelled (waker : ℕ) (c c' : Ctx W) : Type 0 where
    pub world :
        c'.shared.world
        ≡ os.cancel_io_ex c.handle.raw c.handle.header
            (os.register_waker c.handle.header waker c.shared.world)
    pub port : c'.shared.port ≡ c.shared.port
    pub heap : (b : ℕ) → c'.shared.heap b ≡ c.shared.heap b
    pub handle : c'.handle ≡ c.handle

  pub entered-Cancelled :
      (spurious : Bool) (waker : ℕ) (code sent : Code) (c : Ctx W)
      → c.shared.port.pending < 2 ^ 63
      → phase (own_header c) ≡ submitted sent
      → Cancelled waker c (return_permit (cancel_immediate os (entered os spurious code waker c)))
  unfolding cancel_immediate return_permit
  entered-Cancelled spurious waker code sent c small e = record {
    world = refl;
    port = ground arith;
    heap = λ b. ground (arith, header_lock-busy_same spurious code sent (own_header c) e);
    handle = refl;
  }

  -- A poll while an operation is in flight stays pending and cancels that operation, also if it is
  -- the operation's own task that polls again before the completion.
  pub poll-Cancelled :
      (spurious : Bool) (waker : ℕ) (op : Operation) (sent : Code) (c : Ctx W)
      → c.shared.port.pending < 2 ^ 63
      → phase (own_header c) ≡ submitted sent
      → let (r, s, c') = poll os m spurious waker (running op) c in
        (r ≡ ok pending) × (s ≡ running op) × Cancelled waker c c'
  unfolding poll poll_operation ◌>>=◌ after locked guarded
  poll-Cancelled spurious waker op sent c small e =
      rw (lock-granted os spurious (code op) waker c (lt→ltb _ _ small)) (
        rw (header_lock-busy_mismatch spurious (code op) sent (own_header c) e)
          (refl, refl, entered-Cancelled spurious waker (code op) sent c small e))

module _ {W : Type 0} where
  -- The lock is open and nothing is lent out of the pool.
  pub record Freed (c : Ctx W) : Type 0 where
    pub lock : (own_header c).lock ≡ pos 0
    pub taken : c.handle.pool.taken ≡ 0
    pub released : c.handle.pool.released ≡ 0

  drop_guard-Freed : (c : Ctx W) → Freed (drop_guard c)
  unfolding drop_guard
  drop_guard-Freed c = record { lock = ground arith; taken = refl; released = refl }

-- A poll that ends other than pending has freed everything.
abbrev pub Frees : {W A : Type 0} → Outcome (Poll A) × Ctx W → Type 0
Frees (ok pending, _) = Unit {0}
Frees (ok (ready _), c) = Freed c
Frees (err _, c) = Freed c
Frees (panic, c) = Freed c

module _ {W : Type 0} where
  close-Frees : {A : Type 0} (r : Outcome (Poll A)) (c : Ctx W) → Frees (close (r, c))
  unfolding close
  close-Frees (ok pending) c = tt
  close-Frees (ok (ready a)) c = drop_guard-Freed c
  close-Frees (err e) c = drop_guard-Freed c
  close-Frees panic c = drop_guard-Freed c

  guarded-Frees :
      {A : Type 0} (g : Option OverlappedState) (issue : M W (Unit {0})) (finish : M W (Poll A))
      (c : Ctx W)
      → Frees (guarded issue finish g c)
  unfolding guarded with_guard pure
  guarded-Frees none issue finish c = tt
  guarded-Frees (some idle) issue finish c = close-Frees _ _
  guarded-Frees (some in_progress) issue finish c = close-Frees _ _

module _ {W : Type 0} (os : Os W) (m : Memory) where
  locked-Frees :
      {A : Type 0} (r : LockResult) (issue : M W (Unit {0})) (finish : M W (Poll A)) (c : Ctx W)
      → Frees ((locked os r >>= guarded issue finish) c)
  unfolding ◌>>=◌ locked
  locked-Frees (acquired state) issue finish c = guarded-Frees (some state) issue finish c
  locked-Frees (busy true) issue finish c = unfold guarded in tt
  locked-Frees (busy false) issue finish c = unfold guarded in tt

  poll_operation-Frees :
      (spurious : Bool) (waker : ℕ) (op : Operation) (c : Ctx W)
      → c.shared.port.pending < 2 ^ 63
      → Frees (poll_operation os m spurious waker op c)
  unfolding poll_operation ◌>>=◌
  poll_operation-Frees spurious waker op c small =
      rw (lock-granted os spurious (code op) waker c (lt→ltb _ _ small))
        (locked-Frees (reply spurious (code op) c) _ _ (entered os spurious (code op) waker c))

  after-Frees :
      (op : Operation) (r : Outcome (Poll Output)) (c : Ctx W)
      → Frees (r, c)
      → let (r', _, c') = after op (r, c) in Frees (r', c')
  unfolding after
  after-Frees op (ok pending) c h = h
  after-Frees op (ok (ready x)) c h = h
  after-Frees op (err e) c h = h
  after-Frees op panic c h = h

  -- While the port is not shutting down, a poll of an operation that ends with a result, an error or
  -- a panic leaves the lock of its header open and its pool with nothing lent out.
  pub poll-Frees :
      (spurious : Bool) (waker : ℕ) (op : Operation) (c : Ctx W)
      → c.shared.port.pending < 2 ^ 63
      → let (r, _, c') = poll os m spurious waker (running op) c in Frees (r, c')
  unfolding poll
  poll-Frees spurious waker op c small =
      let (r, c') = poll_operation os m spurious waker op c in
      after-Frees op r c' (poll_operation-Frees spurious waker op c small)
