-- ===== src/Background/Race/Orders.antt =====
-- The methods of src/task.rs run through are runs of the atomic steps, so that both orders occur.
use aiocp.Prelude.{ℕ, ◌≡◌, refl, inl, inr, Bool, true, false, if◌then◌else◌, Bool-cases, arith}
use mathlib.Core.Path.{subst}
use aiocp.Prelude.Int.{ℤ, neg, is_pos}
use aiocp.Io.{Code}
use aiocp.Os.{Os}
use aiocp.Task.{Header, LockResult, exchange_open, lock_id, header_lock, unlock}
use aiocp.Task.Rounds.{unlock_loop-replicate}
use aiocp.Shared.{Shared, update}
use aiocp.Port.{release_header, fetch_add}
use aiocp.Handle.{Ctx, own_header}
use aiocp.Handle.Locking.{entered}
use aiocp.Background.Race.{
  entering, registered, answered, dequeued, finished, Race, set_lock, exchanged, checked, registers,
  exchanges, checks, loads, swaps, leaves, wakes, RaceReach, here, next, meeting,
}

exchange-reads :
    (spurious : Bool) (id old : ℤ)
    → (exchange_open spurious id old).0 ≡ false
    → (exchange_open spurious id old).1 ≡ old
unfolding exchange_open
exchange-reads spurious id old e = ground (arith, e)

abbrev swapped : Header → Header × Bool
swapped h = (set_lock (neg h.lock) h, true)

abbrev untouched : Header → Header × Bool
untouched h = (h, false)

unlock-swapped : (rounds : ℕ) (h : Header) → is_pos h.lock ≡ true → unlock rounds h ≡ swapped h
unfolding unlock
unlock-swapped rounds h e = rw (unlock_loop-replicate rounds h.lock) (rw e refl)

unlock-untouched : (rounds : ℕ) (h : Header) → is_pos h.lock ≡ false → unlock rounds h ≡ untouched h
unfolding unlock
unlock-untouched rounds h e = rw (unlock_loop-replicate rounds h.lock) (rw e refl)

module _ {W : Type 0} (os : Os W) (a waker : ℕ) (code : Code) where
  -- The thread has run `Header::release`, with `x` from `Header::unlock`.
  abbrev pub released : Header × Bool → Race W → Race W
  released x c = record c {
    world = if x.1 then os.wake a c.world else c.world;
    header = x.0;
    thread = finished;
  }

  -- The task has registered its waker and run `Header::header_lock`, which gave `x`.
  abbrev pub locked : LockResult × Header → Race W → Race W
  locked x c = record c {
    world = os.register_waker a waker c.world;
    header = x.1;
    task = answered x.0;
  }

  RaceReach-append :
      {c d e : Race W}
      → RaceReach os a waker code c d
      → RaceReach os a waker code d e
      → RaceReach os a waker code c e
  RaceReach-append r here = r
  RaceReach-append r (next s st) = next (RaceReach-append r s) st

  release-RaceReach :
      (rounds : ℕ) (c : Race W)
      → c.thread ≡ dequeued
      → RaceReach os a waker code c (released (unlock rounds c.header) c)
  release-RaceReach rounds c e = elim (Bool-cases (is_pos c.header.lock)) [
    | inl p ↦
        rw (unlock-swapped rounds c.header p)
          (next (next (next here (loads e)) (swaps c.header.lock refl p refl)) (wakes true refl))
    | inr p ↦
        rw (unlock-untouched rounds c.header p)
          (next (next (next here (loads e)) (leaves c.header.lock refl p)) (wakes false refl))
  ]

  -- The task after its exchange.
  abbrev entering_done : Race W → Race W
  entering_done c = record c { world = os.register_waker a waker c.world; task = registered }

  lock-won :
      (spurious : Bool) (c : Race W)
      → (exchange_open spurious (lock_id code) c.header.lock).0 ≡ true
      → exchanged spurious code (entering_done c) ≡ locked (header_lock spurious code c.header) c
  unfolding exchanged header_lock
  lock-won spurious c e = rw e refl

  lock-failed :
      (spurious : Bool) (c : Race W)
      → (exchange_open spurious (lock_id code) c.header.lock).0 ≡ false
      → checked code
          (exchange_open spurious (lock_id code) c.header.lock).1
          (exchanged spurious code (entering_done c))
        ≡ locked (header_lock spurious code c.header) c
  unfolding exchanged checked header_lock
  lock-failed spurious c e = rw (e, exchange-reads spurious (lock_id code) c.header.lock e) refl

  lock-RaceReach :
      (spurious : Bool) (c : Race W)
      → c.task ≡ entering
      → RaceReach os a waker code c (locked (header_lock spurious code c.header) c)
  lock-RaceReach spurious c e =
      let tried = next (next here (registers e)) (exchanges spurious refl) in
      elim (Bool-cases (exchange_open spurious (lock_id code) c.header.lock).0) [
        | inl p ↦ subst (RaceReach os a waker code c) (lock-won spurious c p) tried
        | inr p ↦ subst (RaceReach os a waker code c) (lock-failed spurious c p) (
            next tried (
              checks (exchange_open spurious (lock_id code) c.header.lock).1
                (unfold exchanged in rw p refl)))
      ]

  -- Both orders are runs, whatever the header is: the poll's lock and then the thread's release, and
  -- the release and then the lock, with any exchanges that fail by themselves.
  pub RaceReach-orders :
      (spurious : Bool) (rounds : ℕ) (w : W) (h : Header)
      → RaceReach os a waker code (meeting w h) (
          released
            (unlock rounds (header_lock spurious code h).1)
            (locked (header_lock spurious code h) (meeting w h)))
        × RaceReach os a waker code (meeting w h) (
            locked
              (header_lock spurious code (unlock rounds h).0)
              (released (unlock rounds h) (meeting w h)))
  RaceReach-orders spurious rounds w h = (
    RaceReach-append (lock-RaceReach spurious (meeting w h) refl)
        (release-RaceReach rounds (locked (header_lock spurious code h) (meeting w h)) refl),
    RaceReach-append (release-RaceReach rounds (meeting w h) refl)
        (lock-RaceReach spurious (released (unlock rounds h) (meeting w h)) refl),
  )

  -- The same of the methods on the shared state: `Header::release` of header `a`, and the lock that a
  -- handle enters.
  pub release_header-released :
      (rounds : ℕ) (s : Shared W)
      → let c = released (unlock rounds (s.heap a)) (meeting s.world (s.heap a)) in
        release_header os rounds a s ≡ record s { world = c.world; heap = update s.heap a c.header }
  unfolding release_header
  release_header-released rounds s = elim (Bool-cases (unlock rounds (s.heap a)).1) [
    | inl e ↦ rw e refl
    | inr e ↦ rw e refl
  ]

  pub entered-locked :
      (spurious : Bool) (c : Ctx W)
      → c.handle.header ≡ a
      → let x =
          locked
            (header_lock spurious code (own_header c))
            (meeting c.shared.world (own_header c)) in
        (entered os spurious code waker c).shared ≡ record {
          world = x.world;
          port = fetch_add 1 c.shared.port;
          heap = update c.shared.heap a x.header;
        }
  entered-locked spurious c e = rw (← e) refl
