-- ===== src/Background/Race/Places.antt =====
-- Where the task and the thread of a race are, as tests.
use aiocp.Prelude.{◌≡◌, refl, Bool, true, false}
use aiocp.Prelude.Int.{is_pos}
use aiocp.Task.{busy}
use aiocp.Background.Race.{
  TaskPc, entering, registered, failed, answered, ThreadPc, dequeued, loaded, unlocked, finished,
}

-- The operation is still in flight for the thread.
abbrev pub flying : ThreadPc → Bool
flying dequeued = true
flying (loaded _) = true
flying _ = false

abbrev pub ended : ThreadPc → Bool
ended finished = true
ended _ = false

-- The thread has seen that it is in flight.
abbrev pub sound : ThreadPc → Bool
sound (loaded old) = is_pos old
sound (unlocked done) = done
sound _ = true

abbrev pub entered : TaskPc → Bool
entered entering = false
entered _ = true

abbrev pub undecided : TaskPc → Bool
undecided (answered _) = false
undecided _ = true

-- The task will not get the lock.
abbrev pub refused : TaskPc → Bool
refused (failed n) = is_pos n
refused (answered (busy _)) = true
refused _ = false

-- If the task has read the lock, it has seen an operation in flight.
abbrev pub blocked : TaskPc → Bool
blocked (failed n) = is_pos n
blocked _ = true

pub ended-flying : (t : ThreadPc) → ended t ≡ true → flying t ≡ false
ended-flying finished e = refl
ended-flying dequeued e = cc
ended-flying (loaded n) e = cc
ended-flying (unlocked d) e = refl

pub flying-ended : (t : ThreadPc) → flying t ≡ true → ended t ≡ false
flying-ended finished e = cc
flying-ended dequeued e = refl
flying-ended (loaded n) e = refl
flying-ended (unlocked d) e = refl

pub refused-entered : (t : TaskPc) → refused t ≡ true → entered t ≡ true
refused-entered entering e = cc
refused-entered registered e = refl
refused-entered (failed n) e = refl
refused-entered (answered r) e = refl
