-- ===== src/Handle/Balance.antt =====
-- The two things that a poll must not leak: permits of the port and counts of its header.
mod Steps
pub use Steps.{
  Moved, Ends, kept, Keeping, Finishes, Moved-Keeps, close-Moved, submit-Moved, entered-Moved,
}
use Steps.{guarded-Ends, guarded-Keeping, Moved-refl}
use aiocp.Prelude.{ℕ, Bool, List, Option, none, some, ◌<◌, ◌^◌}
use aiocp.Io.{Outcome, ok, err, panic, Poll, pending, ready, OverlappedState}
use aiocp.Os.{Os, Memory}
use aiocp.Handle.Defs.{Ctx, M, ◌>>=◌, ◌>>◌, continue, pure}
use aiocp.Handle.Guard.{lock}
use aiocp.Handle.Operation.{Operation, Output, code, prepare, read_code, write_code}
use aiocp.Handle.Poll.{
  State, running, complete, after, poll, poll_operation, poll_read, poll_write, finish_operation,
  finish_read, finish_write, put_filled,
}
use aiocp.Handle.Frames.{
  Frames, os_rules, Frames-prepare, Frames-collect, Frames-apply_to, Frames-take_filled,
  Frames-pure, Frames-unwind,
}

module _ {W : Type 0} where
  -- An action that ends in a value is no action that ends pending.
  continue-Finishes :
      {A B : Type 0} (r : Outcome A) (f : A → M W (Poll B)) (c : Ctx W)
      → ((a : A) (b : Ctx W) → Finishes (f a b).0)
      → Finishes (continue r f c).0
  continue-Finishes (ok a) f c h = h a c
  continue-Finishes (err e) f c h = tt
  continue-Finishes panic f c h = tt

  bind-Finishes :
      {A B : Type 0} (m : M W A) (f : A → M W (Poll B))
      → ((a : A) (b : Ctx W) → Finishes (f a b).0)
      → (c : Ctx W) → Finishes ((m >>= f) c).0
  unfolding ◌>>=◌
  bind-Finishes m f h c = continue-Finishes (m c).0 f (m c).1 h

  pure-Finishes : {B : Type 0} (b : B) (c : Ctx W) → Finishes (pure {W = W} (ready b) c).0
  unfolding pure
  pure-Finishes b c = tt

  put_filled-Frames : (bytes : List ℕ) (o : Option (List ℕ)) → Frames {W = W} (put_filled bytes o)
  unfolding put_filled
  put_filled-Frames bytes none = Frames-unwind
  put_filled-Frames bytes (some slice) = Frames-pure bytes

ruleset finish_rules = (bind-Finishes, pure-Finishes)

module _ {W : Type 0} (os : Os W) (m : Memory) where
  pub finish_operation-Frames : (op : Operation) → Frames (finish_operation os m op)
  unfolding finish_operation
  finish_operation-Frames op = search (os_rules, Frames-collect, Frames-apply_to)

  pub finish_operation-Finishes :
      (op : Operation) (c : Ctx W) → Finishes (finish_operation os m op c).0
  unfolding finish_operation
  finish_operation-Finishes op = search finish_rules

  pub finish_read-Frames : (room : List ℕ) → Frames (finish_read os m room)
  unfolding finish_read
  finish_read-Frames room = search (os_rules, put_filled-Frames)

  pub finish_read-Finishes : (room : List ℕ) (c : Ctx W) → Finishes (finish_read os m room c).0
  unfolding finish_read
  finish_read-Finishes room = search finish_rules

  pub finish_write-Frames : Frames (finish_write os m)
  unfolding finish_write
  finish_write-Frames = search os_rules

  pub finish_write-Finishes : (c : Ctx W) → Finishes (finish_write os m c).0
  unfolding finish_write
  finish_write-Finishes = search finish_rules

  pub poll_operation-Ends :
      (spurious : Bool) (waker : ℕ) (op : Operation) (c : Ctx W)
      → c.shared.port.pending < 2 ^ 64
      → Ends c (poll_operation os m spurious waker op c)
  unfolding poll_operation
  poll_operation-Ends spurious waker op c small =
      guarded-Ends os spurious (code op) waker (prepare os m op) (finish_operation os m op) c small
        (Frames-prepare os m op) (finish_operation-Frames op) (finish_operation-Finishes op)

  after-Ends :
      (op : Operation) (r : Outcome (Poll Output)) (b c : Ctx W)
      → Ends c (r, b)
      → let (r', _, c') = after op (r, b) in Ends c (r', c')
  unfolding after
  after-Ends op (ok pending) b c h = h
  after-Ends op (ok (ready x)) b c h = h
  after-Ends op (err e) b c h = h
  after-Ends op panic b c h = h

  -- By how a poll ended: a pending one has kept nothing, or a permit and a count.
  pub poll-Ends :
      (spurious : Bool) (waker : ℕ) (s : State) (c : Ctx W)
      → c.shared.port.pending < 2 ^ 64
      → let (r, _, c') = poll os m spurious waker s c in Ends c (r, c')
  unfolding poll
  poll-Ends spurious waker (running op) c small =
      let (r, c') = poll_operation os m spurious waker op c in
      after-Ends op r c' c (poll_operation-Ends spurious waker op c small)
  poll-Ends spurious waker complete c small = Moved-refl c small

  after-Keeping :
      (op : Operation) (g : Outcome (Option OverlappedState)) (r : Outcome (Poll Output))
      (b c : Ctx W)
      → Keeping g c (r, b)
      → let (r', _, c') = after op (r, b) in Keeping g c (r', c')
  unfolding after
  after-Keeping op g (ok pending) b c h = h
  after-Keeping op g (ok (ready x)) b c h = h
  after-Keeping op g (err e) b c h = h
  after-Keeping op g panic b c h = h

  -- The answer of the lock to a poll; one that is polled after completion does not ask.
  abbrev pub guard_of : Bool → ℕ → State → Ctx W → Outcome (Option OverlappedState)
  guard_of spurious waker (running op) c = (lock os spurious (code op) waker c).0
  guard_of spurious waker complete c = ok none

  -- A poll of an operation keeps one permit of the port and one count of the header if its lock
  -- hands out an idle guard and it stays pending, which is a submission; and else none: not when the
  -- lock is busy or refused, not on a result, and not on an error or a panic. The raw handle, the
  -- port and the other headers stay as they are. The counter is any 64-bit pattern.
  pub poll-Keeping :
      (spurious : Bool) (waker : ℕ) (s : State) (c : Ctx W)
      → c.shared.port.pending < 2 ^ 64
      → let (r, _, c') = poll os m spurious waker s c in
        Keeping (guard_of spurious waker s c) c (r, c')
  unfolding poll poll_operation
  poll-Keeping spurious waker (running op) c small =
      let (r, c') = poll_operation os m spurious waker op c in
      after-Keeping op (guard_of spurious waker (running op) c) r c' c (
        guarded-Keeping os spurious (code op) waker (prepare os m op) (finish_operation os m op) c
          small (Frames-prepare os m op) (finish_operation-Frames op)
          (finish_operation-Finishes op))
  poll-Keeping spurious waker complete c small = Moved-refl c small

  -- A read and a write through the async traits, by how they ended.
  pub poll_read_write-Ends :
      (spurious : Bool) (waker : ℕ) (bytes : List ℕ) (c : Ctx W)
      → c.shared.port.pending < 2 ^ 64
      → Ends c (poll_read os m spurious waker bytes c)
        × Ends c (poll_write os m spurious waker bytes c)
  unfolding poll_read poll_write
  poll_read_write-Ends spurious waker bytes c small = (
    guarded-Ends os spurious read_code waker _ (finish_read os m bytes) c small (search os_rules)
        (finish_read-Frames bytes) (finish_read-Finishes bytes),
    guarded-Ends os spurious write_code waker _ (finish_write os m) c small
        (search (os_rules, Frames-take_filled)) finish_write-Frames finish_write-Finishes,
  )
