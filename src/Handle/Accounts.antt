-- ===== src/Handle/Accounts.antt =====
-- What a poll has moved, in the port and in the system, taken together.
use aiocp.Prelude.{ℕ, ◌^◌, ◌<◌, ◌≡◌, refl, ◌⊎◌, inl, inr, Bool, List, length, ◌∷◌, arith}
use aiocp.Io.{Outcome, ok, err, panic, Poll, pending, ready}
use aiocp.Os.{Os, Memory}
use aiocp.Kernel.{IsKernel}
use aiocp.Handle.Defs.{Ctx}
use aiocp.Handle.Poll.{State, running, complete, after, poll, poll_operation, poll_read, poll_write}
use aiocp.Handle.Operation.{Operation, Output, code}
use aiocp.Handle.Balance.{Moved, Ends, poll-Ends}
use aiocp.Handle.Books.Calls.{
  Queues-prepare, Queues-taken, Quiet-finish_operation, Quiet-finish_read, Quiet-finish_write,
  Queues-write_overlapped, Quiet-take_filled, take_filled-IsSure,
}
use aiocp.Handle.Books.Rules.{Queues-bind, Queues-done}
use aiocp.Handle.Poll.{finish_operation, finish_read, finish_write}
use aiocp.Handle.Operation.{prepare as prepare_operation, read_code, write_code, take_filled}
use aiocp.Handle.Ext.{write_overlapped}
use aiocp.Handle.Balance.{
  poll_read_write-Ends, finish_operation-Frames, finish_operation-Finishes, finish_read-Frames,
  finish_read-Finishes, finish_write-Frames, finish_write-Finishes,
}
use aiocp.Handle.Frames.{Frames-prepare, os_rules, Frames-take_filled}
use aiocp.Handle.Books.{Book, Books, lock-Books}
use aiocp.Handle.Balance.{poll_operation-Ends}

-- Either nothing has moved and nothing more is owed, or one permit and one count are out, and one
-- packet more is owed for the header.
abbrev pub Accounts : {W : Type 0} → (W → List ℕ) → Ctx W → Ctx W → Type 0
Accounts owed c c' =
    (Moved 0 0 c c' × (owed c'.shared.world ≡ owed c.shared.world))
    ⊎ (Moved 1 1 c c' × (owed c'.shared.world ≡ c.handle.header ∷ owed c.shared.world))

-- The counter says which of the two it was.
module _ {W : Type 0} (owed : W → List ℕ) where
  two-Accounts :
      (c c' : Ctx W)
      → Moved 0 0 c c' ⊎ Moved 1 1 c c'
      → Book owed 0 (owed c.shared.world) c c'
        ⊎ Book owed 1 (c.handle.header ∷ owed c.shared.world) c c'
      → Accounts owed c c'
  two-Accounts c c' (inl h) (inl k) = inl (h, k.owes)
  two-Accounts c c' (inr h) (inr k) = inr (h, k.owes)
  two-Accounts c c' (inl h) (inr k) = absurd (omega (arith, h.permits_out, k.counter))
  two-Accounts c c' (inr h) (inl k) = absurd (omega (arith, h.permits_out, k.counter))

  Ends-Accounts :
      {A : Type 0} (r : Outcome (Poll A)) (c c' : Ctx W)
      → Ends c (r, c')
      → Books owed c (r, c')
      → Accounts owed c c'
  Ends-Accounts (ok pending) c c' h k = two-Accounts c c' h k
  Ends-Accounts (ok (ready x)) c c' h k = inl (h, k.owes)
  Ends-Accounts (err e) c c' h k = inl (h, k.owes)
  Ends-Accounts panic c c' h k = inl (h, k.owes)

  after-Accounts :
      (op : Operation) (r : Outcome (Poll Output)) (b c : Ctx W)
      → Accounts owed c b
      → let (r', _, c') = after op (r, b) in Accounts owed c c'
  unfolding after
  after-Accounts op (ok pending) b c h = h
  after-Accounts op (ok (ready x)) b c h = h
  after-Accounts op (err e) b c h = h
  after-Accounts op panic b c h = h

module _ {W : Type 0} (os : Os W) (m : Memory) (owed : W → List ℕ) (k : IsKernel os owed) where
  poll_operation-Accounts :
      (spurious : Bool) (waker : ℕ) (op : Operation) (c : Ctx W)
      → c.shared.port.pending < 2 ^ 64
      → Accounts owed c (poll_operation os m spurious waker op c).1
  poll_operation-Accounts spurious waker op c small =
      Ends-Accounts owed (poll_operation os m spurious waker op c).0 c
        (poll_operation os m spurious waker op c).1
        (poll_operation-Ends os m spurious waker op c small)
        (unfold poll_operation in
          lock-Books os owed k spurious (code op) waker (prepare_operation os m op)
            (finish_operation os m op) c small (Frames-prepare os m op)
            (finish_operation-Frames os m op) (Queues-prepare os m owed k op)
            (Quiet-finish_operation os m owed k op) (finish_operation-Finishes os m op))

  -- A poll of any operation takes a permit and a count exactly if the system then owes one packet
  -- more for the header: otherwise counter, count and debt are all unchanged.
  pub poll-Accounts :
      (spurious : Bool) (waker : ℕ) (s : State) (c : Ctx W)
      → c.shared.port.pending < 2 ^ 64
      → let (r, _, c') = poll os m spurious waker s c in Accounts owed c c'
  unfolding poll
  poll-Accounts spurious waker (running op) c small =
      let (r, c') = poll_operation os m spurious waker op c in
      after-Accounts owed op r c' c (poll_operation-Accounts spurious waker op c small)
  poll-Accounts spurious waker complete c small =
      inl (unfold poll in poll-Ends os m spurious waker complete c small, refl)

  -- So do a read and a write through the async traits.
  pub poll_read_write-Accounts :
      (spurious : Bool) (waker : ℕ) (bytes : List ℕ) (c : Ctx W)
      → c.shared.port.pending < 2 ^ 64
      → Accounts owed c (poll_read os m spurious waker bytes c).1
        × Accounts owed c (poll_write os m spurious waker bytes c).1
  poll_read_write-Accounts spurious waker bytes c small =
      let ends = poll_read_write-Ends os m spurious waker bytes c small in
      (
        Ends-Accounts owed (poll_read os m spurious waker bytes c).0 c
            (poll_read os m spurious waker bytes c).1 ends.0
            (unfold poll_read in
              lock-Books os owed k spurious read_code waker _ (finish_read os m bytes) c small
                (search os_rules) (finish_read-Frames os m bytes)
                (Queues-taken os m owed k (length bytes)) (Quiet-finish_read os m owed k bytes)
                (finish_read-Finishes os m bytes)),
        Ends-Accounts owed (poll_write os m spurious waker bytes c).0 c
            (poll_write os m spurious waker bytes c).1 ends.1
            (unfold poll_write in
              lock-Books os owed k spurious write_code waker _ (finish_write os m) c small
                (search (os_rules, Frames-take_filled)) (finish_write-Frames os m)
                (Queues-bind owed (take_filled os m bytes) _ (Quiet-take_filled os m owed k bytes)
                  (take_filled-IsSure os m owed k bytes)
                  (λ _.
                    Queues-done owed (write_overlapped os bytes)
                      (Queues-write_overlapped os m owed k bytes)))
                (Quiet-finish_write os m owed k) (finish_write-Finishes os m)),
      )
