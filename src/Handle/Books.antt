-- ===== src/Handle/Books.antt =====
-- The books of a poll: the counter of the port goes up exactly when the system owes one packet more.
pub mod Rules
pub mod Calls
use aiocp.Prelude.{
  ℕ, ◌+◌, ◌-◌, ◌%◌, ◌^◌, ◌<◌, ◌≡◌, refl, ◌∙◌, ◌⊎◌, inl, inr, Bool, true, false, some, List, ◌∷◌,
  arith, Bool-cases,
}
use aiocp.Io.{
  Code, Outcome, ok, err, panic, Poll, pending, ready, OverlappedState, idle, in_progress,
  handle_io_pending,
}
use aiocp.Os.{Os}
use aiocp.Kernel.{IsKernel}
use aiocp.Task.{LockResult, acquired, busy}
use aiocp.Port.{is_nonneg, drop_permit}
use aiocp.Handle.Defs.{Ctx, M, ◌>>=◌}
use aiocp.Handle.Guard.{
  lock, with_guard, submit, close, forget_or_drop, prepare, drop_guard, drop_overlapped,
  return_permit, locked, cancel_immediate,
}
use aiocp.Handle.Poll.{guarded}
use aiocp.Handle.Operation.{code}
use aiocp.Handle.Locking.{entered, reply, refused, lock-granted, lock-refused}
use aiocp.Handle.Frames.{Frames}
use aiocp.Handle.Balance.{Finishes}
use aiocp.Handle.Books.Rules.{Quiet, Queues, queue_result, queue_same}
use aiocp.Handle.Defs.{◌>>◌}

module _ {W : Type 0} (owed : W → List ℕ) where
  -- From `c` to `c'` the counter went up by `permits`, and `now` is owed.
  pub record Book (permits : ℕ) (now : List ℕ) (c c' : Ctx W) : Type 0 where
    pub counter : c'.shared.port.pending ≡ (c.shared.port.pending + permits) % 2 ^ 64
    pub owes : owed c'.shared.world ≡ now

  abbrev pub Books : {A : Type 0} → Ctx W → Outcome (Poll A) × Ctx W → Type 0
  Books c (ok pending, c') =
      Book 0 (owed c.shared.world) c c' ⊎ Book 1 (c.handle.header ∷ owed c.shared.world) c c'
  Books c (ok (ready _), c') = Book 0 (owed c.shared.world) c c'
  Books c (err _, c') = Book 0 (owed c.shared.world) c c'
  Books c (panic, c') = Book 0 (owed c.shared.world) c c'

  -- Inside a guard: one permit is out, and nothing more is owed.
  pub record Inside (a b : Ctx W) : Type 0 where
    pub counter : b.shared.port.pending ≡ (a.shared.port.pending + 1) % 2 ^ 64
    pub owes : owed b.shared.world ≡ owed a.shared.world
    pub header : b.handle.header ≡ a.handle.header

  drop_guard-Book : (now : List ℕ) (a b : Ctx W) → Book 1 now a b → Book 0 now a (drop_guard b)
  unfolding drop_guard return_permit drop_permit
  drop_guard-Book now a b h = record { counter = ground (arith, h.counter); owes = h.owes }

  pub drop_overlapped-Book :
      (now : List ℕ) (a b : Ctx W) → Book 1 now a b → Book 1 now a (drop_overlapped b)
  unfolding drop_overlapped
  drop_overlapped-Book now a b h = record { counter = h.counter; owes = h.owes }

  pub return_permit-Book :
      (now : List ℕ) (a b : Ctx W) → Book 1 now a b → Book 0 now a (return_permit b)
  unfolding return_permit drop_permit
  return_permit-Book now a b h = record { counter = ground (arith, h.counter); owes = h.owes }

  close-Books :
      {A : Type 0} (r : Outcome (Poll A)) (a b : Ctx W)
      → Finishes r
      → Book 1 (owed a.shared.world) a b
      → Books a (close (r, b))
  unfolding close
  close-Books (ok pending) a b f h = absurd f
  close-Books (ok (ready x)) a b f h = drop_guard-Book (owed a.shared.world) a b h
  close-Books (err e) a b f h = drop_guard-Book (owed a.shared.world) a b h
  close-Books panic a b f h = drop_guard-Book (owed a.shared.world) a b h

  submit-Books :
      (A : Type 0) (r : Outcome (Unit {0})) (a b : Ctx W)
      → Book 1 (queue_result r a.handle.header (owed a.shared.world)) a b
      → Books {A = A} a (close (forget_or_drop r b))
  unfolding close forget_or_drop
  submit-Books A (ok _) a b h = inr h
  submit-Books A (err e) a b h =
      drop_guard-Book _ a (drop_overlapped b) (drop_overlapped-Book _ a b h)
  submit-Books A panic a b h =
      drop_guard-Book _ a (drop_overlapped b) (drop_overlapped-Book _ a b h)

  guarded-Books :
      {A : Type 0} (issue : M W (Unit {0})) (finish : M W (Poll A)) (state : OverlappedState)
      (a b : Ctx W)
      → Frames issue
      → Frames finish
      → Queues owed issue
      → Quiet owed finish
      → ((c : Ctx W) → Finishes (finish c).0)
      → Inside a b
      → Books a (guarded issue finish (some state) b)
  unfolding guarded with_guard submit prepare
  guarded-Books {A} issue finish idle a b fi ff qi qf fin h =
      submit-Books A (handle_io_pending (issue (prepare b)).0) a (issue (prepare b)).1 (record {
        counter = ground (arith, (fi.at (prepare b)).port, h.counter);
        owes =
            qi.books (prepare b)
            ∙ queue_same (handle_io_pending (issue (prepare b)).0) _ _ _ _ h.header h.owes;
      })
  guarded-Books issue finish in_progress a b fi ff qi qf fin h =
      close-Books (finish b).0 a (finish b).1 (fin b) (record {
        counter = ground (arith, (ff.at b).port, h.counter);
        owes = (qf.at b).owes ∙ h.owes;
      })

module _ {W : Type 0} (os : Os W) (owed : W → List ℕ) (k : IsKernel os owed) where
  locked-Books :
      {A : Type 0} (r : LockResult) (issue : M W (Unit {0})) (finish : M W (Poll A)) (a b : Ctx W)
      → Frames issue
      → Frames finish
      → Queues owed issue
      → Quiet owed finish
      → ((c : Ctx W) → Finishes (finish c).0)
      → Inside owed a b
      → Books owed a ((locked os r >>= guarded issue finish) b)
  unfolding ◌>>=◌ locked guarded cancel_immediate
  locked-Books (acquired state) issue finish a b fi ff qi qf fin h =
      guarded-Books owed issue finish state a b fi ff qi qf fin h
  locked-Books (busy true) issue finish a b fi ff qi qf fin h = inl (
      return_permit-Book owed (owed a.shared.world) a (cancel_immediate os b) (record {
        counter = h.counter;
        owes = k.cancel_io_ex_keeps b.handle.raw b.handle.header b.shared.world ∙ h.owes;
      }))
  locked-Books (busy false) issue finish a b fi ff qi qf fin h = inl (
      return_permit-Book owed (owed a.shared.world) a b
        (record { counter = h.counter; owes = h.owes }))

  pub entered-Inside :
      (spurious : Bool) (code : Code) (waker : ℕ) (c : Ctx W)
      → Inside owed c (entered os spurious code waker c)
  entered-Inside spurious code waker c = record {
    counter = refl;
    owes = k.register_waker_keeps c.handle.header waker c.shared.world;
    header = refl;
  }

  pub refused-Book :
      (c : Ctx W) → c.shared.port.pending < 2 ^ 64 → Book owed 0 (owed c.shared.world) c (refused c)
  refused-Book c small = record { counter = omega arith; owes = refl }

  pub lock-Books :
      {A : Type 0} (spurious : Bool) (code : Code) (waker : ℕ) (issue : M W (Unit {0}))
      (finish : M W (Poll A)) (c : Ctx W)
      → c.shared.port.pending < 2 ^ 64
      → Frames issue
      → Frames finish
      → Queues owed issue
      → Quiet owed finish
      → ((b : Ctx W) → Finishes (finish b).0)
      → Books owed c ((lock os spurious code waker >>= guarded issue finish) c)
  unfolding ◌>>=◌
  lock-Books spurious code waker issue finish c small fi ff qi qf fin =
      elim (Bool-cases (is_nonneg c.shared.port.pending)) [
        | inl e ↦ rw (lock-granted os spurious code waker c e) (
            locked-Books (reply spurious code c) issue finish c (entered os spurious code waker c)
              fi ff qi qf fin (entered-Inside spurious code waker c))
        | inr e ↦ rw (lock-refused os spurious code waker c e) (refused-Book c small)
      ]
