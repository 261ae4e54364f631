-- ===== src/Handle/Locking.antt =====
-- `Handle::lock` step by step: the state in which the answer of the lock is looked at.
use aiocp.Prelude.{
  ℕ, ◌^◌, ◌<◌, ◌≡◌, refl, sym, ap, ◌∙◌, inl, inr, Bool, true, false, some, Bool-cases, arith,
}
use aiocp.Io.{Code, OverlappedState, ok, err, shutting_down}
use aiocp.Os.{Os}
use aiocp.Task.{LockResult, acquired, busy, header_lock}
use aiocp.Port.{permit, is_nonneg, fetch_add, fetch_sub}
use aiocp.Handle.Defs.{Ctx, ◌>>=◌, own_header, set_header, set_port}
use aiocp.Handle.Guard.{lock, take_permit, lock_header, locked, register_by_ref}

module _ {W : Type 0} where
  abbrev pub reply : Bool → Code → Ctx W → LockResult
  reply spurious code c = (header_lock spurious code (own_header c)).0

  abbrev pub refused : Ctx W → Ctx W
  refused c = set_port (fetch_sub 1 (fetch_add 1 c.shared.port)) c

module _ {W : Type 0} (os : Os W) where
  -- A permit is out, the waker is registered, and the lock word is as `header_lock` left it.
  abbrev pub entered : Bool → Code → ℕ → Ctx W → Ctx W
  entered spurious code waker c =
      set_header (header_lock spurious code (own_header c)).1 (record c {
        shared = record {
          world = os.register_waker c.handle.header waker c.shared.world;
          port = fetch_add 1 c.shared.port;
          heap = c.shared.heap;
        };
      })

  pub lock-granted :
      (spurious : Bool) (code : Code) (waker : ℕ) (c : Ctx W)
      → is_nonneg c.shared.port.pending ≡ true
      → lock os spurious code waker c
        ≡ locked os (reply spurious code c) (entered spurious code waker c)
  unfolding lock ◌>>=◌ take_permit permit register_by_ref lock_header
  lock-granted spurious code waker c e = rw e

  pub lock-refused :
      (spurious : Bool) (code : Code) (waker : ℕ) (c : Ctx W)
      → is_nonneg c.shared.port.pending ≡ false
      → lock os spurious code waker c ≡ (err shutting_down, refused c)
  unfolding lock ◌>>=◌ take_permit permit register_by_ref lock_header
  lock-refused spurious code waker c e = rw e

  -- A lock that hands out a guard has entered.
  pub record Guarded (spurious : Bool) (code : Code) (waker : ℕ) (c : Ctx W) : Type 0 where
    pub up : c.shared.port.pending < 2 ^ 63
    pub left : (lock os spurious code waker c).1 ≡ entered spurious code waker c

  locked-same :
      (r : LockResult) (state : OverlappedState) (c : Ctx W)
      → (locked os r c).0 ≡ ok (some state)
      → (locked os r c).1 ≡ c
  unfolding locked
  locked-same (acquired x) state c e = refl
  locked-same (busy true) state c e = cc
  locked-same (busy false) state c e = cc

  pub lock-Guarded :
      (spurious : Bool) (code : Code) (waker : ℕ) (state : OverlappedState) (c : Ctx W)
      → (lock os spurious code waker c).0 ≡ ok (some state)
      → Guarded spurious code waker c
  lock-Guarded spurious code waker state c h = elim (Bool-cases (is_nonneg c.shared.port.pending)) [
    | inl e ↦
        let path = lock-granted spurious code waker c e in
        record {
          up = ground (arith, e);
          left =
              ap (λ x. x.1) path
              ∙ locked-same (reply spurious code c) state (entered spurious code waker c)
                  (sym (ap (λ x. x.0) path) ∙ h);
        }
    | inr e ↦ cc (lock-refused spurious code waker c e)
  ]
