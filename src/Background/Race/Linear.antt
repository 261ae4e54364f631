-- ===== src/Background/Race/Linear.antt =====
-- A poll and the thread on one header come to the same as one of them after the other.
use aiocp.Prelude.{ℕ, ◌≡◌, refl, sym, ap, ◌∙◌, ◌⊎◌, inl, inr, true, false, arith}
use mathlib.Core.Path.{ap₂}
use aiocp.Prelude.Int.{is_pos}
use aiocp.Io.{Code}
use aiocp.Os.{Os}
use aiocp.Task.{Header, LockResult, busy, exchange_open, after_failure, header_lock, unlock}
use aiocp.Task.Rounds.{unlock_loop-replicate}
use aiocp.Background.Race.{TaskPc, answered, finished, Race, RaceReach, meeting}
use aiocp.Background.Race.Places.{flying}
use aiocp.Background.Race.Line.{done, Line, early, late, got, Trying-answered, RaceReach-Line}

abbrev pub pair : LockResult → Header → LockResult × Header
pair r h = (r, h)

pair_same : {r x : LockResult} {g h : Header} → r ≡ x → g ≡ h → pair r g ≡ pair x h
pair_same p q = ap₂ pair p q

module _ (code : Code) (h : Header) (e : is_pos h.lock ≡ true) where
  unlock-done : (rounds : ℕ) → (unlock rounds h).0 ≡ done code h
  unfolding unlock
  unlock-done rounds = ground (arith, unlock_loop-replicate rounds h.lock, e)

  header_lock-flying : header_lock false code h ≡ (busy true, h)
  unfolding header_lock exchange_open after_failure
  header_lock-flying = ground (arith, e)

abbrev reply_of : TaskPc → LockResult → LockResult
reply_of (answered r) other = r
reply_of _ other = other

answered_eq : (t : TaskPc) (r x : LockResult) → t ≡ answered r → t ≡ answered x → r ≡ x
answered_eq t r x p q = ap (λ y. reply_of y r) (sym p ∙ q)

-- What the task is answered, and the header that is left, if the lock comes before the release of
-- the thread, and if it comes after it.
unfoldable pub lock_then_unlock : Code → Header → LockResult × Header
unfolding header_lock unlock
lock_then_unlock code h = let (r, h') = header_lock false code h in (r, (unlock 0 h').0)

unfoldable pub unlock_then_lock : Code → Header → LockResult × Header
unfolding header_lock unlock
unlock_then_lock code h = header_lock false code (unlock 0 h).0

module _ {W : Type 0} (os : Os W) (a waker : ℕ) (code : Code) (h : Header)
    (e : is_pos h.lock ≡ true) where
  Line-ends :
      (c : Race W) (r : LockResult)
      → c.task ≡ answered r
      → c.thread ≡ finished
      → Line code h c
      → (pair r c.header ≡ lock_then_unlock code h) ⊎ (pair r c.header ≡ unlock_then_lock code h)
  unfolding lock_then_unlock unlock_then_lock
  Line-ends c r t u (early f s p q) = cc (ap flying u)
  Line-ends c r t u (late f p (inl q)) = absurd (Trying-answered c.task r t q)
  Line-ends c r t u (late f p (inr (inl (inl q)))) = cc
  Line-ends c r t u (late f p (inr (inl (inr q)))) = inl (
      rw (header_lock-flying code h e)
        (pair_same (answered_eq c.task r (busy true) t q) (p ∙ sym (unlock-done code h e 0))))
  Line-ends c r t u (late f p (inr (inr q))) = cc
  Line-ends c r t u (got f p q) = inr (
      pair_same (answered_eq c.task r (header_lock false code (done code h)).0 t p) q
      ∙ ap (λ x. header_lock false code x) (sym (unlock-done code h e 0)))

  -- On a header with an operation in flight, however the atomic steps of a poll's lock and of the
  -- thread's release interleave, and whichever weak exchanges fail by themselves: once both are
  -- done, the answer to the task and the header are those of `header_lock` followed by `unlock`, or
  -- of `unlock` followed by `header_lock`.
  pub RaceReach-Linear :
      {c : Race W} (before : W) (r : LockResult)
      → RaceReach os a waker code (meeting before h) c
      → c.task ≡ answered r
      → c.thread ≡ finished
      → (pair r c.header ≡ lock_then_unlock code h) ⊎ (pair r c.header ≡ unlock_then_lock code h)
  RaceReach-Linear {c} before r path t u =
      Line-ends c r t u
        (RaceReach-Line os a waker code h e path (early refl refl refl (inl (inl refl))))
