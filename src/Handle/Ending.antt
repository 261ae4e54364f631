-- ===== src/Handle/Ending.antt =====
-- The end of a guard, looked at on its own: a permit goes back, and nothing else moves.
use aiocp.Prelude.{ℕ, ◌-◌, ◌^◌, ◌<◌, ◌≡◌, refl, ap, ◌∙◌, some, List, arith}
use aiocp.Io.{Outcome, Poll, ok, err, panic, pending, ready, in_progress}
use aiocp.Os.{Os, Memory}
use aiocp.Kernel.{IsKernel}
use aiocp.Handle.{Ctx}
use aiocp.Handle.Guard.{lock, with_guard, close, drop_guard, return_permit}
use aiocp.Handle.Operation.{Operation}
use aiocp.Handle.Poll.{finish_operation}
use aiocp.Handle.Balance.{
  Moved, Moved-Keeps, close-Moved, finish_operation-Frames, finish_operation-Finishes,
}
use aiocp.Handle.Books.Calls.{Quiet-finish_operation}
use aiocp.Io.{OverlappedState, idle, handle_io_pending}
use aiocp.Handle.Balance.{Finishes, submit-Moved}
use aiocp.Handle.Frames.{Frames-prepare}
use aiocp.Handle.Guard.{forget_or_drop, submit, drop_overlapped}
use aiocp.Handle.Guard
use aiocp.Handle.Operation.{Output, prepare}
use aiocp.Handle.Poll.{guarded}
use aiocp.Handle.Books.Rules.{queue_result}
use aiocp.Handle.Books.Calls.{Queues-prepare}

module _ {W : Type 0} where
  close-world :
      {A : Type 0} (r : Outcome (Poll A)) (c : Ctx W)
      → (close (r, c)).1.shared.world ≡ c.shared.world
  unfolding close drop_guard return_permit
  close-world (ok pending) c = refl
  close-world (ok (ready x)) c = refl
  close-world (err e) c = refl
  close-world panic c = refl

  -- Whatever the counter is, it is itself and a full turn.
  Moved-turn : (c : Ctx W) → c.shared.port.pending < 2 ^ 64 → Moved (2 ^ 64) 0 c c
  Moved-turn c small = record {
    permits_out = omega arith;
    counts_out = omega arith;
    port_raw = refl;
    raw = refl;
    header = refl;
    others = λ b ne. refl;
  }

  forget_or_drop-world :
      (A : Type 0) (r : Outcome (Unit {0})) (c : Ctx W)
      → (close (forget_or_drop {A = A} r c)).1.shared.world ≡ c.shared.world
  unfolding close forget_or_drop drop_overlapped drop_guard return_permit
  forget_or_drop-world A (ok _) c = refl
  forget_or_drop-world A (err e) c = refl
  forget_or_drop-world A panic c = refl

  failed-queue :
      (A : Type 0) (r : Outcome (Unit {0})) (c : Ctx W) (a : ℕ) (xs : List ℕ)
      → Finishes (close (forget_or_drop {A = A} r c)).0
      → queue_result r a xs ≡ xs
  unfolding close forget_or_drop
  failed-queue A (ok _) c a xs f = absurd f
  failed-queue A (err e) c a xs f = refl
  failed-queue A panic c a xs f = refl

  -- The permit that goes back is one of a whole turn of the counter.
  pub record Ended (owed : W → List ℕ) (a b : Ctx W) : Type 0 where
    pub moved : Moved (2 ^ 64 - 1) 0 a b
    pub owes : owed b.shared.world ≡ owed a.shared.world

module _ {W : Type 0} (os : Os W) (m : Memory) (owed : W → List ℕ) (k : IsKernel os owed) where
  -- What a poll does with its guard, if it does not submit an operation.
  pub guarded-Ended :
      (op : Operation) (state : OverlappedState) (a : Ctx W)
      → a.shared.port.pending < 2 ^ 64
      → Finishes (guarded (prepare os m op) (finish_operation os m op) (some state) a).0
      → Ended owed a (guarded (prepare os m op) (finish_operation os m op) (some state) a).1
  unfolding guarded with_guard submit Guard.prepare
  guarded-Ended op idle a small f =
      let b = Guard.prepare a in
      let r = handle_io_pending (prepare os m op b).0 in
      record {
        moved =
            submit-Moved Output (2 ^ 64 - 1) (prepare os m op) a a (Frames-prepare os m op)
              (Moved-turn a small) f;
        owes =
            ap owed (forget_or_drop-world Output r (prepare os m op b).1)
            ∙ (Queues-prepare os m owed k op).books b
            ∙ failed-queue Output r (prepare os m op b).1 a.handle.header (owed a.shared.world) f;
      }
  guarded-Ended op in_progress a small f =
      let b = (finish_operation os m op a).1 in
      let r = (finish_operation os m op a).0 in
      record {
        moved = close-Moved (2 ^ 64 - 1) 0 r a b (finish_operation-Finishes os m op a) (
            Moved-Keeps (2 ^ 64) 0 a a b (Moved-turn a small)
              ((finish_operation-Frames os m op).at a));
        owes = ap owed (close-world r b) ∙ ((Quiet-finish_operation os m owed k op).at a).owes;
      }
