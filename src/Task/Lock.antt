-- ===== src/Task/Lock.antt =====
-- Proofs about the lock word of a header: its phases, what a lock hands out, and its range.
use aiocp.Prelude.{zero, suc, ◌≡◌, ◌↔◌, Bool, true, false, ◌==◌, if◌then◌else◌, arith}
use aiocp.Prelude.Int.{ℤ, pos, negsuc}
use aiocp.Io.{Code, idle, in_progress}
use aiocp.Task.{Header, LockResult, acquired, busy, header_lock}

-- What the lock word says, as the source's comment on it has it.
pub data Phase : Type 0 where
  open_phase : Phase
  submitted completed : Code → Phase

abbrev pub phase_of : ℤ → Phase
phase_of (pos zero) = open_phase
phase_of (pos (suc code)) = submitted code
phase_of (negsuc code) = completed code

abbrev pub phase : Header → Phase
phase h = phase_of h.lock

-- The answer that the code gives in each phase, with the phase after it.
abbrev pub answer : Bool → Code → Phase → LockResult × Phase
answer spurious code open_phase = (acquired idle, if spurious then open_phase else submitted code)
answer spurious code (submitted c) = (busy true, submitted c)
answer spurious code (completed c) =
    (acquired (if code == c then in_progress else idle), open_phase)

-- `header_lock` is the table `answer` on phases, in every phase and for every code, and it changes
-- nothing but the lock word.
pub header_lock-answer :
    (spurious : Bool) (code : Code) (h : Header)
    → ((header_lock spurious code h).0 ≡ (answer spurious code (phase h)).0)
      × (phase (header_lock spurious code h).1 ≡ (answer spurious code (phase h)).1)
      × ((header_lock spurious code h).1 ≡ record h { lock = (header_lock spurious code h).1.lock })
unfolding header_lock
header_lock-answer spurious code h = ground arith

-- A completed result is handed only to the code that submitted it, and always to that code: a lock
-- comes back in the pending state exactly when the header holds a completed operation of this code.
pub header_lock-in_progress_iff :
    (spurious : Bool) (code : Code) (h : Header)
    → ((header_lock spurious code h).0 ≡ acquired in_progress) ↔ (phase h ≡ completed code)
unfolding header_lock
header_lock-in_progress_iff spurious code h = ground arith

-- Whenever the lock is busy it reports a mismatch, the code being the submitted one or not.
pub header_lock-busy_mismatch :
    (spurious : Bool) (code c : Code) (h : Header)
    → phase h ≡ submitted c
    → (header_lock spurious code h).0 ≡ busy true
unfolding header_lock
header_lock-busy_mismatch spurious code c h e = ground arith

-- An idle lock owns the lock word in just one case: an open lock whose exchange did not fail by
-- itself. In the others (a completed operation of another code, a spurious failure) the lock is
-- handed out and its word stays open.
pub header_lock-idle_owns_iff :
    (spurious : Bool) (code : Code) (h : Header)
    → (header_lock spurious code h).0 ≡ acquired idle
    → (phase (header_lock spurious code h).1 ≡ submitted code)
      ↔ ((phase h ≡ open_phase) × (spurious ≡ false))
unfolding header_lock
header_lock-idle_owns_iff spurious code h e = ground arith

pub header_lock-busy_same :
    (spurious : Bool) (code c : Code) (h : Header)
    → phase h ≡ submitted c
    → (header_lock spurious code h).1 ≡ h
unfolding header_lock
header_lock-busy_same spurious code c h e = ground arith
