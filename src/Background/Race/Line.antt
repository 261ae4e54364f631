-- ===== src/Background/Race/Line.antt =====
-- How far a poll and the thread are on one header.
use aiocp.Prelude.{ℕ, ◌≡◌, refl, sym, ap, ◌∙◌, ◌⊎◌, inl, inr, Bool, true, false, arith}
use aiocp.Prelude.Int.{ℤ, neg, is_pos}
use aiocp.Io.{Code}
use aiocp.Os.{Os}
use aiocp.Task.{Header, LockResult, busy, exchange_open, after_failure, header_lock}
use aiocp.Background.Race.{
  TaskPc, entering, registered, failed, answered, ThreadPc, loaded, unlocked, finished, Race,
  set_lock, exchanged, checked, RaceStep, registers, exchanges, checks, loads, swaps, retries,
  leaves, wakes, RaceReach, here, next,
}
use aiocp.Background.Race.Places.{flying}

-- The lock has not been tried.
abbrev pub Trying : TaskPc → Type 0
Trying t = (t ≡ entering) ⊎ (t ≡ registered)

abbrev same_read : ThreadPc → Bool
same_read (loaded old) = is_pos old
same_read _ = true

Trying-failed : (t : TaskPc) (n : ℤ) → t ≡ failed n → Trying t → ⊥
Trying-failed t n p (inl q) = cc
Trying-failed t n p (inr q) = cc

pub Trying-answered : (t : TaskPc) (r : LockResult) → t ≡ answered r → Trying t → ⊥
Trying-answered t r p (inl q) = cc
Trying-answered t r p (inr q) = cc

abbrev value : TaskPc → ℤ → ℤ
value (failed n) other = n
value _ other = other

failed_eq : (t : TaskPc) (m n : ℤ) → t ≡ failed m → t ≡ failed n → m ≡ n
failed_eq t m n p q = ap (λ x. value x m) (sym p ∙ q)

module _ (code : Code) (h : Header) where
  abbrev pub done : Header
  done = set_lock (neg h.lock) h

  -- The lock was tried while the operation was in flight.
  abbrev pub Beaten : TaskPc → Type 0
  Beaten t = (t ≡ failed h.lock) ⊎ (t ≡ answered (busy true))

  -- How far the two are, for the header `h` at first.
  pub data Line {W : Type 0} (c : Race W) : Type 0 where
    early :
        flying c.thread ≡ true
        → same_read c.thread ≡ true
        → c.header ≡ h
        → Trying c.task ⊎ Beaten c.task
        → Line c
    late :
        flying c.thread ≡ false
        → c.header ≡ done
        → Trying c.task ⊎ (Beaten c.task ⊎ (c.task ≡ failed done.lock))
        → Line c
    got :
        flying c.thread ≡ false
        → c.task ≡ answered (header_lock false code done).0
        → c.header ≡ (header_lock false code done).1
        → Line c

module _ {W : Type 0} (os : Os W) (a waker : ℕ) (code : Code) (h : Header)
    (e : is_pos h.lock ≡ true) where
  registers-Line :
      (c : Race W)
      → c.task ≡ entering
      → Line code h c
      → Line code h (record c { world = os.register_waker a waker c.world; task = registered })
  registers-Line c t (early f r p q) = early f r p (inl (inr refl))
  registers-Line c t (late f p q) = late f p (inl (inr refl))
  registers-Line c t (got f p q) = cc

  exchanges-Line :
      (spurious : Bool) (c : Race W)
      → c.task ≡ registered
      → Line code h c
      → Line code h (exchanged spurious code c)
  unfolding exchanged exchange_open
  exchanges-Line spurious c t (early f r p q) =
      early f r (ground (arith, p, e)) (inr (inl (ground (arith, p, e))))
  exchanges-Line spurious c t (late f p q) =
      late f (ground (arith, p, e)) (inr (inr (ground (arith, p, e))))
  exchanges-Line spurious c t (got f p q) = cc

  -- A value above zero is an operation in flight, another one a completed operation.
  checked-busy :
      (n : ℤ) (c : Race W)
      → n ≡ h.lock
      → ((checked code n c).header ≡ c.header) × ((checked code n c).task ≡ answered (busy true))
  unfolding checked after_failure
  checked-busy n c p = ground (arith, p, e)

  checked-got :
      (n : ℤ) (c : Race W)
      → n ≡ neg h.lock
      → c.header ≡ done code h
      → ((checked code n c).task ≡ answered (header_lock false code (done code h)).0)
        × ((checked code n c).header ≡ (header_lock false code (done code h)).1)
  unfolding checked after_failure header_lock exchange_open
  checked-got n c p q = ground (arith, p, q, e)

  checks-Line :
      (n : ℤ) (c : Race W) → c.task ≡ failed n → Line code h c → Line code h (checked code n c)
  unfolding checked
  checks-Line n c t (early f r p (inl q)) = absurd (Trying-failed c.task n t q)
  checks-Line n c t (early f r p (inr (inr q))) = cc
  checks-Line n c t (early f r p (inr (inl q))) =
      let b = checked-busy n c (failed_eq c.task n h.lock t q) in
      early f r (b.0 ∙ p) (inr (inr b.1))
  checks-Line n c t (late f p (inl q)) = absurd (Trying-failed c.task n t q)
  checks-Line n c t (late f p (inr (inl (inr q)))) = cc
  checks-Line n c t (late f p (inr (inl (inl q)))) =
      let b = checked-busy n c (failed_eq c.task n h.lock t q) in
      late f (b.0 ∙ p) (inr (inl (inr b.1)))
  checks-Line n c t (late f p (inr (inr q))) =
      let b = checked-got n c (failed_eq c.task n (neg h.lock) t q) p in got f b.0 b.1
  checks-Line n c t (got f p q) = cc

  loads-Line :
      (c : Race W)
      → flying c.thread ≡ true
      → Line code h c
      → Line code h (record c { thread = loaded c.header.lock })
  loads-Line c fl (early f r p q) = early refl (ap (λ x. is_pos x.lock) p ∙ e) p q
  loads-Line c fl (late f p q) = cc
  loads-Line c fl (got f p q) = cc

  swaps-Line :
      (old : ℤ) (c : Race W)
      → c.thread ≡ loaded old
      → c.header.lock ≡ old
      → Line code h c
      → Line code h (record c { header = set_lock (neg old) c.header; thread = unlocked true })
  swaps-Line old c t l (early f r p (inl q)) =
      late refl (ap (λ x. set_lock (neg x) c.header) (sym l) ∙ ap (λ x. set_lock (neg x.lock) x) p)
        (inl q)
  swaps-Line old c t l (early f r p (inr q)) =
      late refl (ap (λ x. set_lock (neg x) c.header) (sym l) ∙ ap (λ x. set_lock (neg x.lock) x) p)
        (inr (inl q))
  swaps-Line old c t l (late f p q) = cc (ap flying t)
  swaps-Line old c t l (got f p q) = cc (ap flying t)

  wakes-Line :
      (d : Bool) (w : W) (c : Race W)
      → c.thread ≡ unlocked d
      → Line code h c
      → Line code h (record c { world = w; thread = finished })
  wakes-Line d w c t (early f r p q) = cc (ap flying t)
  wakes-Line d w c t (late f p q) = late refl p q
  wakes-Line d w c t (got f p q) = got refl p q

  leaves-Line :
      (old : ℤ) (c : Race W) → c.thread ≡ loaded old → is_pos old ≡ false → Line code h c → ⊥
  leaves-Line old c t n (early f r p q) = cc
  leaves-Line old c t n (late f p q) = cc (ap flying t)
  leaves-Line old c t n (got f p q) = cc (ap flying t)

  RaceStep-Line : {c d : Race W} → RaceStep os a waker code c d → Line code h c → Line code h d
  RaceStep-Line {c} (registers t) v = registers-Line c t v
  RaceStep-Line {c} (exchanges spurious t) v = exchanges-Line spurious c t v
  RaceStep-Line {c} (checks n t) v = checks-Line n c t v
  RaceStep-Line {c} (loads t) v = loads-Line c (ap flying t) v
  RaceStep-Line {c} (swaps old t p l) v = swaps-Line old c t l v
  RaceStep-Line {c} (retries old t p) v = loads-Line c (ap flying t) v
  RaceStep-Line {c} (leaves old t p) v = absurd (leaves-Line old c t p v)
  RaceStep-Line {c} (wakes d t) v = wakes-Line d _ c t v

  pub RaceReach-Line :
      {c d : Race W} → RaceReach os a waker code c d → Line code h c → Line code h d
  RaceReach-Line here v = v
  RaceReach-Line (next r s) v = RaceStep-Line s (RaceReach-Line r v)
