-- ===== src/Handle/Balance/Steps.antt =====
-- How each step of a poll moves the counts: the lock, the submission, and the end of the guard.
use aiocp.Prelude.{
  ℕ, suc, ◌+◌, ◌%◌, ◌^◌, ◌<◌, ◌≡◌, ◌≢◌, refl, ◌∙◌, ◌⊎◌, inl, inr, Bool, true, false, Option, some,
  arith, Bool-cases,
}
use aiocp.Io.{
  Code, Outcome, ok, err, panic, Poll, pending, ready, OverlappedState, idle, in_progress,
  handle_io_pending,
}
use aiocp.Os.{Os}
use aiocp.Task.{LockResult, acquired, busy}
use aiocp.Handle.Defs.{Ctx, M, ◌>>=◌, own_header}
use aiocp.Handle.Guard.{
  lock, with_guard, submit, close, forget_or_drop, prepare, drop_guard, drop_overlapped,
  return_permit, locked, cancel_immediate,
}
use aiocp.Handle.Frames.{Keeps, Frames, world-Keeps}
use aiocp.Handle.Locking.{entered, reply, refused, lock-granted, lock-refused}
use aiocp.Task.Lock.{header_lock-answer}
use aiocp.Port.{is_nonneg}
use aiocp.Handle.Poll.{guarded}

-- From `c` to `c'` the port gave out `permits` more permits and the header `counts` more counts;
-- no other header was touched.
pub record Moved {W : Type 0} (permits counts : ℕ) (c c' : Ctx W) : Type 0 where
  pub permits_out : c'.shared.port.pending ≡ (c.shared.port.pending + permits) % 2 ^ 64
  pub counts_out : (own_header c').strong ≡ (own_header c).strong + counts
  pub port_raw : c'.shared.port.raw ≡ c.shared.port.raw
  pub raw : c'.handle.raw ≡ c.handle.raw
  pub header : c'.handle.header ≡ c.handle.header
  pub others : (b : ℕ) → b ≢ c.handle.header → c'.shared.heap b ≡ c.shared.heap b

-- What a poll may have moved, by how it ended.
abbrev pub Ends : {W A : Type 0} → Ctx W → Outcome (Poll A) × Ctx W → Type 0
Ends c (ok pending, c') = Moved 0 0 c c' ⊎ Moved 1 1 c c'
Ends c (ok (ready _), c') = Moved 0 0 c c'
Ends c (err _, c') = Moved 0 0 c c'
Ends c (panic, c') = Moved 0 0 c c'

-- The permits and counts that a poll keeps, by the answer of its lock and by how it ended: one where
-- it got an idle guard and stays pending, which is a submission, and else none.
abbrev pub kept : {A : Type 0} → Outcome (Option OverlappedState) → Outcome (Poll A) → ℕ
kept (ok (some idle)) (ok pending) = 1
kept _ _ = 0

-- Between `c` and the end of a poll whose lock has answered so.
abbrev pub Keeping :
    {W A : Type 0} → Outcome (Option OverlappedState) → Ctx W → Outcome (Poll A) × Ctx W → Type 0
Keeping g c (r, c') = Moved (kept g r) (kept g r) c c'

-- The body of the pending branch never reports that the poll is pending.
abbrev pub Finishes : {A : Type 0} → Outcome (Poll A) → Type 0
Finishes (ok pending) = ⊥
Finishes _ = Unit {0}

module _ {W : Type 0} where
  pub Moved-refl : (c : Ctx W) → c.shared.port.pending < 2 ^ 64 → Moved 0 0 c c
  Moved-refl c small = record {
    permits_out = omega arith;
    counts_out = omega arith;
    port_raw = refl;
    raw = refl;
    header = refl;
    others = λ b ne. refl;
  }

  pub Moved-Keeps : (p n : ℕ) (a b c : Ctx W) → Moved p n a b → Keeps b c → Moved p n a c
  Moved-Keeps p n a b c h k = record {
    permits_out = ground (arith, k.port, h.permits_out);
    counts_out = k.strong ∙ h.counts_out;
    port_raw = ground (arith, k.port, h.port_raw);
    raw = k.raw ∙ h.raw;
    header = k.header ∙ h.header;
    others = λ x ne. k.others x (λ e. ne (e ∙ h.header)) ∙ h.others x ne;
  }

  drop_guard-Moved : (p n : ℕ) (a b : Ctx W) → Moved (suc p) n a b → Moved p n a (drop_guard b)
  unfolding drop_guard
  drop_guard-Moved p n a b h = record {
    permits_out = ground (arith, h.permits_out);
    counts_out = ground (arith, h.counts_out);
    port_raw = h.port_raw;
    raw = h.raw;
    header = h.header;
    others = λ x ne. ground (arith, h.others x ne, h.header);
  }

  prepare-Moved : (p n : ℕ) (a b : Ctx W) → Moved p n a b → Moved p (suc n) a (prepare b)
  unfolding prepare
  prepare-Moved p n a b h = record {
    permits_out = h.permits_out;
    counts_out = ground (arith, h.counts_out);
    port_raw = h.port_raw;
    raw = h.raw;
    header = h.header;
    others = λ x ne. ground (arith, h.others x ne, h.header);
  }

  drop_overlapped-Moved :
      (p n : ℕ) (a b : Ctx W) → Moved p (suc n) a b → Moved p n a (drop_overlapped b)
  unfolding drop_overlapped
  drop_overlapped-Moved p n a b h = record {
    permits_out = h.permits_out;
    counts_out = ground (arith, h.counts_out);
    port_raw = h.port_raw;
    raw = h.raw;
    header = h.header;
    others = λ x ne. ground (arith, h.others x ne, h.header);
  }

  -- Inside the guard a permit is out.
  forget_or_drop-Ends :
      (A : Type 0) (r : Outcome (Unit {0})) (a b : Ctx W)
      → Moved 1 1 a b
      → Ends {A = A} a (close (forget_or_drop r b))
  unfolding close forget_or_drop
  forget_or_drop-Ends A (ok _) a b h = inr h
  forget_or_drop-Ends A (err e) a b h =
      drop_guard-Moved 0 0 a (drop_overlapped b) (drop_overlapped-Moved 1 0 a b h)
  forget_or_drop-Ends A panic a b h =
      drop_guard-Moved 0 0 a (drop_overlapped b) (drop_overlapped-Moved 1 0 a b h)

  forget_or_drop-Keeping :
      (A : Type 0) (r : Outcome (Unit {0})) (a b : Ctx W)
      → Moved 1 1 a b
      → Keeping {A = A} (ok (some idle)) a (close (forget_or_drop r b))
  unfolding close forget_or_drop
  forget_or_drop-Keeping A (ok _) a b h = h
  forget_or_drop-Keeping A (err e) a b h =
      drop_guard-Moved 0 0 a (drop_overlapped b) (drop_overlapped-Moved 1 0 a b h)
  forget_or_drop-Keeping A panic a b h =
      drop_guard-Moved 0 0 a (drop_overlapped b) (drop_overlapped-Moved 1 0 a b h)

  forget_or_drop-Moved :
      (A : Type 0) (p : ℕ) (r : Outcome (Unit {0})) (a b : Ctx W)
      → Finishes (close {A = A} (forget_or_drop r b)).0
      → Moved (suc p) 1 a b
      → Moved p 0 a (close {A = A} (forget_or_drop r b)).1
  unfolding close forget_or_drop
  forget_or_drop-Moved A p (ok _) a b f h = absurd f
  forget_or_drop-Moved A p (err e) a b f h =
      drop_guard-Moved p 0 a (drop_overlapped b) (drop_overlapped-Moved (suc p) 0 a b h)
  forget_or_drop-Moved A p panic a b f h =
      drop_guard-Moved p 0 a (drop_overlapped b) (drop_overlapped-Moved (suc p) 0 a b h)

  -- A submission that fails.
  pub submit-Moved :
      (A : Type 0) (p : ℕ) (issue : M W (Unit {0})) (a b : Ctx W)
      → Frames issue
      → Moved (suc p) 0 a b
      → Finishes (with_guard {A = A} (submit issue) b).0
      → Moved p 0 a (with_guard {A = A} (submit issue) b).1
  unfolding with_guard submit
  submit-Moved A p issue a b f h fin =
      forget_or_drop-Moved A p (handle_io_pending (issue (prepare b)).0) a (issue (prepare b)).1 fin
        (Moved-Keeps (suc p) 1 a (prepare b) _ (prepare-Moved (suc p) 0 a b h) (f.at (prepare b)))

  submit-Ends :
      (A : Type 0) (issue : M W (Unit {0})) (a b : Ctx W)
      → Frames issue
      → Moved 1 0 a b
      → Ends {A = A} a (with_guard (submit issue) b)
  unfolding with_guard submit
  submit-Ends A issue a b f h =
      forget_or_drop-Ends A (handle_io_pending (issue (prepare b)).0) a (issue (prepare b)).1
        (Moved-Keeps 1 1 a (prepare b) _ (prepare-Moved 1 0 a b h) (f.at (prepare b)))

  pub close-Moved :
      {A : Type 0} (p n : ℕ) (r : Outcome (Poll A)) (a b : Ctx W)
      → Finishes r
      → Moved (suc p) n a b
      → Moved p n a (close (r, b)).1
  unfolding close
  close-Moved p n (ok pending) a b f h = absurd f
  close-Moved p n (ok (ready x)) a b f h = drop_guard-Moved p n a b h
  close-Moved p n (err e) a b f h = drop_guard-Moved p n a b h
  close-Moved p n panic a b f h = drop_guard-Moved p n a b h

  guard-Keeping :
      {A : Type 0} (issue : M W (Unit {0})) (finish : M W (Poll A)) (state : OverlappedState)
      (a b : Ctx W)
      → Frames issue
      → Frames finish
      → ((c : Ctx W) → Finishes (finish c).0)
      → Moved 1 0 a b
      → Keeping (ok (some state)) a (guarded issue finish (some state) b)
  unfolding guarded with_guard submit
  guard-Keeping issue finish idle a b fi ff fin h =
      forget_or_drop-Keeping _ (handle_io_pending (issue (prepare b)).0) a (issue (prepare b)).1
        (Moved-Keeps 1 1 a (prepare b) _ (prepare-Moved 1 0 a b h) (fi.at (prepare b)))
  guard-Keeping issue finish in_progress a b fi ff fin h =
      close-Moved 0 0 (finish b).0 a (finish b).1 (fin b) (Moved-Keeps 1 0 a b _ h (ff.at b))

  close-Ends :
      {A : Type 0} (r : Outcome (Poll A)) (a b : Ctx W)
      → Finishes r
      → Moved 1 0 a b
      → Ends a (close (r, b))
  unfolding close
  close-Ends (ok pending) a b f h = absurd f
  close-Ends (ok (ready x)) a b f h = drop_guard-Moved 0 0 a b h
  close-Ends (err e) a b f h = drop_guard-Moved 0 0 a b h
  close-Ends panic a b f h = drop_guard-Moved 0 0 a b h

  guard-Ends :
      {A : Type 0} (issue : M W (Unit {0})) (finish : M W (Poll A)) (state : OverlappedState)
      (a b : Ctx W)
      → Frames issue
      → Frames finish
      → ((c : Ctx W) → Finishes (finish c).0)
      → Moved 1 0 a b
      → Ends a (guarded issue finish (some state) b)
  unfolding guarded with_guard
  guard-Ends issue finish idle a b fi ff fin h = submit-Ends _ issue a b fi h
  guard-Ends issue finish in_progress a b fi ff fin h =
      close-Ends (finish b).0 a (finish b).1 (fin b) (Moved-Keeps 1 0 a b _ h (ff.at b))

module _ {W : Type 0} (os : Os W) where
  return_permit-Moved : (n : ℕ) (a b : Ctx W) → Moved 1 n a b → Moved 0 n a (return_permit b)
  unfolding return_permit
  return_permit-Moved n a b h = record {
    permits_out = ground (arith, h.permits_out);
    counts_out = h.counts_out;
    port_raw = h.port_raw;
    raw = h.raw;
    header = h.header;
    others = h.others;
  }

  -- The rest of a poll, once the lock has answered.
  locked-Ends :
      {A : Type 0} (r : LockResult) (issue : M W (Unit {0})) (finish : M W (Poll A)) (a b : Ctx W)
      → Frames issue
      → Frames finish
      → ((c : Ctx W) → Finishes (finish c).0)
      → Moved 1 0 a b
      → Ends a ((locked os r >>= guarded issue finish) b)
  unfolding ◌>>=◌ locked guarded cancel_immediate
  locked-Ends (acquired state) issue finish a b fi ff fin h =
      guard-Ends issue finish state a b fi ff fin h
  locked-Ends (busy true) issue finish a b fi ff fin h =
      inl (
        return_permit-Moved 0 a (cancel_immediate os b) (Moved-Keeps 1 0 a b _ h (world-Keeps _ b)))
  locked-Ends (busy false) issue finish a b fi ff fin h = inl (return_permit-Moved 0 a b h)

  pub entered-Moved :
      (spurious : Bool) (code : Code) (waker : ℕ) (c : Ctx W)
      → Moved 1 0 c (entered os spurious code waker c)
  entered-Moved spurious code waker c = record {
    permits_out = refl;
    counts_out = ground (arith, (header_lock-answer spurious code (own_header c)).2);
    port_raw = refl;
    raw = refl;
    header = refl;
    others = λ b ne. ground arith;
  }

  refused-Moved : (c : Ctx W) → c.shared.port.pending < 2 ^ 64 → Moved 0 0 c (refused c)
  refused-Moved c small = record {
    permits_out = omega arith;
    counts_out = omega arith;
    port_raw = refl;
    raw = refl;
    header = refl;
    others = λ b ne. refl;
  }

  -- A poll behind a lock, whatever the operation.
  pub guarded-Ends :
      {A : Type 0} (spurious : Bool) (code : Code) (waker : ℕ) (issue : M W (Unit {0}))
      (finish : M W (Poll A)) (c : Ctx W)
      → c.shared.port.pending < 2 ^ 64
      → Frames issue
      → Frames finish
      → ((b : Ctx W) → Finishes (finish b).0)
      → Ends c ((lock os spurious code waker >>= guarded issue finish) c)
  unfolding ◌>>=◌
  guarded-Ends spurious code waker issue finish c small fi ff fin =
      elim (Bool-cases (is_nonneg c.shared.port.pending)) [
        | inl e ↦ rw (lock-granted os spurious code waker c e) (
            locked-Ends (reply spurious code c) issue finish c (entered os spurious code waker c) fi
              ff fin (entered-Moved spurious code waker c))
        | inr e ↦ rw (lock-refused os spurious code waker c e) (refused-Moved c small)
      ]

  locked-Keeping :
      {A : Type 0} (r : LockResult) (issue : M W (Unit {0})) (finish : M W (Poll A)) (a b : Ctx W)
      → Frames issue
      → Frames finish
      → ((c : Ctx W) → Finishes (finish c).0)
      → Moved 1 0 a b
      → Keeping (locked os r b).0 a ((locked os r >>= guarded issue finish) b)
  unfolding ◌>>=◌ locked guarded cancel_immediate
  locked-Keeping (acquired state) issue finish a b fi ff fin h =
      guard-Keeping issue finish state a b fi ff fin h
  locked-Keeping (busy true) issue finish a b fi ff fin h =
      return_permit-Moved 0 a (cancel_immediate os b) (Moved-Keeps 1 0 a b _ h (world-Keeps _ b))
  locked-Keeping (busy false) issue finish a b fi ff fin h = return_permit-Moved 0 a b h

  pub guarded-Keeping :
      {A : Type 0} (spurious : Bool) (code : Code) (waker : ℕ) (issue : M W (Unit {0}))
      (finish : M W (Poll A)) (c : Ctx W)
      → c.shared.port.pending < 2 ^ 64
      → Frames issue
      → Frames finish
      → ((b : Ctx W) → Finishes (finish b).0)
      → Keeping
          (lock os spurious code waker c).0
          c
          ((lock os spurious code waker >>= guarded issue finish) c)
  unfolding ◌>>=◌
  guarded-Keeping spurious code waker issue finish c small fi ff fin =
      elim (Bool-cases (is_nonneg c.shared.port.pending)) [
        | inl e ↦ rw (lock-granted os spurious code waker c e) (
            locked-Keeping (reply spurious code c) issue finish c (entered os spurious code waker c)
              fi ff fin (entered-Moved spurious code waker c))
        | inr e ↦ rw (lock-refused os spurious code waker c e) (refused-Moved c small)
      ]
