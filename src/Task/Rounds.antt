-- ===== src/Task/Rounds.antt =====
-- Proofs about `Header::unlock`: its compare-exchange loop, and the life of one operation's lock.
use aiocp.Prelude.{
  ℕ, zero, suc, ◌≤◌, ◌<◌, ◌^◌, ◌≡◌, refl, Bool, true, false, List, [], ◌∷◌, replicate, ◌==◌,
  if◌then◌else◌, arith, Option, none, some,
}
use aiocp.Prelude.Int.{ℤ, pos, negsuc, neg, is_pos}
use aiocp.Io.{Code, idle, in_progress}
use aiocp.Task.{Header, acquired, header_lock, unlock_loop, unlock, unlock_to_open}
use aiocp.Task.Lock.{Phase, open_phase, submitted, completed, phase}

-- The first value read that is no operation in flight, if there is one, and the last value read.
abbrev pub first_idle : List ℤ → ℤ → Option ℤ
first_idle [] old = if is_pos old then none else some old
first_idle (o ∷ rounds) old = if is_pos old then first_idle rounds o else some old

abbrev pub last_read : List ℤ → ℤ → ℤ
last_read [] old = old
last_read (o ∷ rounds) old = last_read rounds o

abbrev pub settled : Option ℤ → ℤ → ℤ × Bool
settled none last = (neg last, true)
settled (some idle_value) _ = (idle_value, false)

-- However the rounds interleave with writes of others, the loop ends: it gives up at the first value
-- read that is no operation in flight, and else negates the last value read.
pub unlock_loop-settled :
    (rounds : List ℤ) (old : ℤ)
    → unlock_loop rounds old ≡ settled (first_idle rounds old) (last_read rounds old)
unfolding unlock_loop
unlock_loop-settled [] old = ground arith
unlock_loop-settled (o ∷ rounds) old = ground (arith, unlock_loop-settled rounds o)

-- An exchange that fails by itself any number of times changes nothing about the result.
pub unlock_loop-replicate :
    (n : ℕ) (old : ℤ)
    → unlock_loop (replicate n old) old ≡ (if is_pos old then (neg old, true) else (old, false))
unfolding unlock_loop
unlock_loop-replicate zero old = refl
unlock_loop-replicate (suc n) old = ground (arith, unlock_loop-replicate n old)

abbrev pub completes : Phase → Phase × Bool
completes open_phase = (open_phase, false)
completes (submitted c) = (completed c, true)
completes (completed c) = (completed c, false)

-- `unlock` marks an operation in flight as completed and says so; in the other phases it changes
-- nothing. Spurious failures make no difference, and all but the lock word is left alone.
pub unlock-completes :
    (spurious : ℕ) (h : Header)
    → (phase (unlock spurious h).0 ≡ (completes (phase h)).0)
      × ((unlock spurious h).1 ≡ (completes (phase h)).1)
      × ((unlock spurious h).0 ≡ record h { lock = (unlock spurious h).0.lock })
unfolding unlock
unlock-completes spurious h = ground (arith, unlock_loop-replicate spurious h.lock)

-- The life of an operation: from an open lock, a submission, its completion and the next lock give
-- the pending state exactly to the same code; another code is told that the header is idle.
pub header_lock-unlock :
    (spurious : Bool) (rounds : ℕ) (code c : Code) (h : Header)
    → phase h ≡ open_phase
    → let sent = (header_lock false code h).1 in
      let done = (unlock rounds sent).0 in
      ((header_lock spurious c done).0 ≡ acquired (if c == code then in_progress else idle))
      × (phase (header_lock spurious c done).1 ≡ open_phase)
unfolding header_lock
header_lock-unlock spurious rounds code c h e =
    ground (arith, unlock-completes rounds (record h { lock = pos (suc code) }))

-- The lock word stays within 2 ^ 32 of zero, so that no `+ 1` and no negation of it overflows.
abbrev pub magnitude : ℤ → ℕ
magnitude (pos n) = n
magnitude (negsuc n) = suc n

abbrev pub InRange : Header → Type 0
InRange h = magnitude h.lock ≤ 2 ^ 32

-- For a 32-bit code, locking, unlocking and opening a header keep its lock word in that range.
pub lock-InRange :
    (spurious : Bool) (rounds : ℕ) (code : Code) (h : Header)
    → code < 2 ^ 32
    → InRange h
    → InRange (header_lock spurious code h).1
      × InRange (unlock rounds h).0
      × InRange (unlock_to_open h)
unfolding header_lock unlock unlock_to_open
lock-InRange spurious rounds code h small range =
    ground (arith, unlock_loop-replicate rounds h.lock)
