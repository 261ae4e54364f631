-- ===== src/Background/Race/Woken.antt =====
-- No wake-up is lost between a poll and the thread.
use aiocp.Prelude.{
  ℕ, ◌≡◌, refl, sym, ap, ◌∙◌, Bool, true, false, Option, some, List, ◌∷◌, if◌then◌else◌, arith,
}
use aiocp.Prelude.Int.{ℤ, neg, is_pos}
use aiocp.Io.{Code}
use aiocp.Os.{Os}
use aiocp.Task.{Header, LockResult, acquired, busy, exchange_open, after_failure}
use aiocp.Background.Race.{
  entering, registered, failed, answered, loaded, unlocked, finished, Race, exchanged, checked,
  RaceStep, registers, exchanges, checks, loads, swaps, retries, leaves, wakes, RaceReach, here,
  next, meeting,
}
use aiocp.Background.Race.Places.{
  flying, ended, sound, entered, undecided, refused, blocked, ended-flying, flying-ended,
  refused-entered,
}

-- What is documented of an atomic waker: `waiting` has the waker that was registered last and is
-- not woken yet, `called` the wakers that were called, the last one first.
pub record IsWaker {W : Type 0} (os : Os W) (waiting : W → ℕ → Option ℕ) (called : W → List ℕ)
    : Type 0 where
  pub register_waits : (a k : ℕ) (w : W) → waiting (os.register_waker a k w) a ≡ some k
  pub register_calls : (a k : ℕ) (w : W) → called (os.register_waker a k w) ≡ called w
  pub wake_calls : (a k : ℕ) (w : W) → waiting w a ≡ some k → called (os.wake a w) ≡ k ∷ called w

is_pos-neg : (n : ℤ) → is_pos n ≡ true → is_pos (neg n) ≡ false
is_pos-neg n e = ground arith

module _ {W : Type 0} (os : Os W) (waiting : W → ℕ → Option ℕ) (called : W → List ℕ)
    (k : IsWaker os waiting called) (a waker : ℕ) (code : Code) (before : W) where
  record Fair (c : Race W) : Type 0 where
    held : flying c.thread ≡ true → is_pos c.header.lock ≡ true
    read : flying c.thread ≡ true → blocked c.task ≡ true
    seen : sound c.thread ≡ true
    released : flying c.thread ≡ false → undecided c.task ≡ true → is_pos c.header.lock ≡ false
    quiet : ended c.thread ≡ false → called c.world ≡ called before
    waits : entered c.task ≡ true → ended c.thread ≡ false → waiting c.world a ≡ some waker
    woken : refused c.task ≡ true → ended c.thread ≡ true → called c.world ≡ waker ∷ called before

  registers-Fair :
      (c : Race W)
      → c.task ≡ entering
      → Fair c
      → Fair (record c { world = os.register_waker a waker c.world; task = registered })
  registers-Fair c e f = record {
    held = f.held;
    read = λ x. refl;
    seen = f.seen;
    released = λ x y. f.released x (ap undecided e);
    quiet = λ x. k.register_calls a waker c.world ∙ f.quiet x;
    waits = λ x y. k.register_waits a waker c.world;
    woken = λ x y. cc;
  }

  exchanges-Fair :
      (spurious : Bool) (c : Race W)
      → c.task ≡ registered
      → Fair c
      → Fair (exchanged spurious code c)
  unfolding exchanged exchange_open
  exchanges-Fair spurious c e f = record {
    held = λ x. ground (arith, f.held x);
    read = λ x. ground (arith, f.held x);
    seen = f.seen;
    released = λ x y. ground (arith, f.released x (ap undecided e));
    quiet = f.quiet;
    waits = λ x y. f.waits (ap entered e) y;
    woken =
        λ x y. absurd (ground (arith, x, f.released (ended-flying c.thread y) (ap undecided e)));
  }

  checks-Fair : (n : ℤ) (c : Race W) → c.task ≡ failed n → Fair c → Fair (checked code n c)
  unfolding checked after_failure
  checks-Fair n c e f = record {
    held = λ x. ground (arith, f.held x, f.read x, ap blocked e);
    read = λ x. refl;
    seen = f.seen;
    released = λ x y. cc;
    quiet = f.quiet;
    waits = λ x y. f.waits (ap entered e) y;
    woken = λ x y. f.woken (ap refused e ∙ ground arith) y;
  }

  -- The thread reads the lock, which is still in flight.
  loads-Fair :
      (c : Race W)
      → flying c.thread ≡ true
      → Fair c
      → Fair (record c { thread = loaded c.header.lock })
  loads-Fair c e f = record {
    held = λ x. f.held e;
    read = λ x. f.read e;
    seen = f.held e;
    released = λ x y. cc;
    quiet = λ x. f.quiet (flying-ended c.thread e);
    waits = λ x y. f.waits x (flying-ended c.thread e);
    woken = λ x y. cc;
  }

  swaps-Fair :
      (old : ℤ) (c : Race W)
      → c.thread ≡ loaded old
      → is_pos old ≡ true
      → Fair c
      → Fair (record c { header = record c.header { lock = neg old }; thread = unlocked true })
  swaps-Fair old c e p f = record {
    held = λ x. cc;
    read = λ x. cc;
    seen = refl;
    released = λ x y. is_pos-neg old p;
    quiet = λ x. f.quiet (ap ended e);
    waits = λ x y. f.waits x (ap ended e);
    woken = λ x y. cc;
  }

  wakes-Fair :
      (done : Bool) (c : Race W)
      → c.thread ≡ unlocked done
      → Fair c
      → Fair (record c { world = if done then os.wake a c.world else c.world; thread = finished })
  wakes-Fair done c e f =
      let yes : done ≡ true = sym (ap sound e) ∙ f.seen in
      record {
        held = λ x. cc;
        read = λ x. cc;
        seen = refl;
        released = λ x y. f.released (ap flying e) y;
        quiet = λ x. cc;
        waits = λ x y. cc;
        woken = λ x y. rw yes (
            k.wake_calls a waker c.world (f.waits (refused-entered c.task x) (ap ended e))
            ∙ ap (λ xs. waker ∷ xs) (f.quiet (ap ended e)));
      }

  RaceStep-Fair : {c d : Race W} → RaceStep os a waker code c d → Fair c → Fair d
  RaceStep-Fair {c} (registers e) f = registers-Fair c e f
  RaceStep-Fair {c} (exchanges spurious e) f = exchanges-Fair spurious c e f
  RaceStep-Fair {c} (checks n e) f = checks-Fair n c e f
  RaceStep-Fair {c} (loads e) f = loads-Fair c (ap flying e) f
  RaceStep-Fair {c} (swaps old e p q) f = swaps-Fair old c e p f
  RaceStep-Fair {c} (retries old e p) f = loads-Fair c (ap flying e) f
  RaceStep-Fair {c} (leaves old e p) f = absurd (cc (sym p ∙ sym (ap sound e) ∙ f.seen))
  RaceStep-Fair {c} (wakes done e) f = wakes-Fair done c e f

  RaceReach-Fair : {c d : Race W} → RaceReach os a waker code c d → Fair c → Fair d
  RaceReach-Fair here f = f
  RaceReach-Fair (next r st) f = RaceStep-Fair st (RaceReach-Fair r f)

  meeting-Fair : (h : Header) → is_pos h.lock ≡ true → Fair (meeting before h)
  meeting-Fair h e = record {
    held = λ x. e;
    read = λ x. refl;
    seen = refl;
    released = λ x y. cc;
    quiet = λ x. refl;
    waits = λ x y. cc;
    woken = λ x y. cc;
  }

  -- What the answer means: the lock was got, or the waker of the task was called.
  abbrev pub Served : LockResult → Race W → Type 0
  Served (acquired state) c = Unit {0}
  Served (busy mismatch) c = called c.world ≡ waker ∷ called before

  refused-Served :
      (r : LockResult) (c : Race W)
      → (refused (answered r) ≡ true → called c.world ≡ waker ∷ called before)
      → Served r c
  refused-Served (acquired state) c h = tt
  refused-Served (busy mismatch) c h = h refl

  -- However the atomic steps of a poll (the waker is registered, then the lock is tried) and of the
  -- thread (the operation in flight is marked as completed, then its waker is called) on one header
  -- interleave, and whichever weak exchanges fail by themselves: when both are done, the task has
  -- got the lock, or else its waker has been called, once and by the thread. The operation is in
  -- flight at first.
  pub RaceReach-Served :
      {c : Race W} (h : Header) (r : LockResult)
      → is_pos h.lock ≡ true
      → RaceReach os a waker code (meeting before h) c
      → c.task ≡ answered r
      → c.thread ≡ finished
      → Served r c
  RaceReach-Served {c} h r e path t u =
      let f = RaceReach-Fair path (meeting-Fair h e) in
      refused-Served r c (λ x. f.woken (ap refused t ∙ x) (ap ended u))
