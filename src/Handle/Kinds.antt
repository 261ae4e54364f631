-- ===== src/Handle/Kinds.antt =====
-- Whose result a poll collects: a completed operation is only taken for one of its kind.
use aiocp.Prelude.{
  ℕ, ◌≡◌, sym, ap, ◌∙◌, inl, inr, Bool, true, false, Option, some, Bool-cases, arith,
}
use aiocp.Io.{Code, Outcome, OverlappedState, ok, in_progress}
use aiocp.Os.{Os}
use aiocp.Task.{LockResult, acquired, busy}
use aiocp.Task.Lock.{phase, Phase, completed, header_lock-in_progress_iff}
use aiocp.Port.{is_nonneg}
use aiocp.Handle.Defs.{Ctx, own_header}
use aiocp.Handle.Guard.{lock, locked}
use aiocp.Handle.Operation.{Operation, write, read, connect_named_pipe, device_io_ctl, code}
use aiocp.Handle.Locking.{reply, entered, lock-granted, lock-refused}

-- The types of operations.
pub data Kind : Type 0 where
  reads writes connects controls : Kind

abbrev pub kind : Operation → Kind
kind (write _) = writes
kind (read _) = reads
kind connect_named_pipe = connects
kind (device_io_ctl _ _) = controls

code-kind : (a b : Operation) → code a ≡ code b → kind a ≡ kind b
unfolding code
code-kind a b e = ground (arith, e)

abbrev code_of : Phase → Code → Code
code_of (completed n) other = n
code_of _ other = other

abbrev state_of : Outcome (Option OverlappedState) → OverlappedState → OverlappedState
state_of (ok (some s)) other = s
state_of _ other = other

module _ {W : Type 0} (os : Os W) where
  locked-reply :
      (r : LockResult) (c : Ctx W)
      → (locked os r c).0 ≡ ok (some in_progress)
      → r ≡ acquired in_progress
  unfolding locked
  locked-reply (acquired state) c e = ap (λ x. acquired (state_of x state)) e
  locked-reply (busy true) c e = cc
  locked-reply (busy false) c e = cc

  lock-completed :
      (spurious : Bool) (n : Code) (waker : ℕ) (c : Ctx W)
      → (lock os spurious n waker c).0 ≡ ok (some in_progress)
      → phase (own_header c) ≡ completed n
  lock-completed spurious n waker c h = elim (Bool-cases (is_nonneg c.shared.port.pending)) [
    | inl e ↦
        let path = ap (λ x. x.0) (lock-granted os spurious n waker c e) in
        let answer =
          locked-reply (reply spurious n c) (entered os spurious n waker c) (sym path ∙ h) in
        (header_lock-in_progress_iff spurious n (own_header c)).0 answer
    | inr e ↦ cc (lock-refused os spurious n waker c e)
  ]

  -- A poll only enters the branch that collects a result (the lock answers with a guard in the
  -- pending state) if the header holds a completed operation, and where that one was submitted by
  -- an operation `sent`, the two are of one type: a result is never collected as that of another
  -- type of operation.
  pub lock-Kind :
      (spurious : Bool) (waker : ℕ) (op sent : Operation) (c : Ctx W)
      → (lock os spurious (code op) waker c).0 ≡ ok (some in_progress)
      → (phase (own_header c) ≡ completed (code op))
        × (phase (own_header c) ≡ completed (code sent) → kind op ≡ kind sent)
  lock-Kind spurious waker op sent c h =
      let done = lock-completed spurious (code op) waker c h in
      (done, λ e. code-kind op sent (ap (λ x. code_of x (code op)) (sym done ∙ e)))
