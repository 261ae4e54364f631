-- ===== src/Handle/Books/Rules.antt =====
-- Which actions of a poll leave what the system owes alone, and which add to it. One rule for each
-- way to build an action.
use aiocp.Prelude.{ℕ, ◌≡◌, refl, ◌∙◌, Bool, true, false, List, ◌∷◌, if◌then◌else◌}
use aiocp.Io.{Outcome, ok, err, panic, handle_io_pending}
use aiocp.Pool.BufferPool.{BufferPool}
use aiocp.Handle.Defs.{Ctx, M, ◌>>=◌, pure, unwind, on_pool, continue}
use aiocp.Handle.Guard.{advance}

-- What is owed after an action that ended in that way: the action's caller takes it for queued.
abbrev pub queue_result : Outcome (Unit {0}) → ℕ → List ℕ → List ℕ
queue_result (ok _) a owed = a ∷ owed
queue_result (err e) a owed = owed
queue_result panic a owed = owed

pub queue_same :
    (r : Outcome (Unit {0})) (x y : ℕ) (p q : List ℕ)
    → x ≡ y
    → p ≡ q
    → queue_result r x p ≡ queue_result r y q
queue_same r x y p q e f = rw (e, f)

abbrev pub IsSure : {A : Type 0} → Outcome A → Type 0
IsSure (err e) = ⊥
IsSure _ = Unit {0}

module _ {W : Type 0} (owed : W → List ℕ) where
  -- The system owes what it owed; and the header is the same one.
  pub record Same (c c' : Ctx W) : Type 0 where
    pub owes : owed c'.shared.world ≡ owed c.shared.world
    pub header : c'.handle.header ≡ c.handle.header

  pub record Quiet {A : Type 0} (m : M W A) : Type 0 where
    pub at : (c : Ctx W) → Same c (m c).1

  -- The system owes one packet more for the header exactly if the caller takes the action as queued.
  pub record Queues {A : Type 0} (m : M W A) : Type 0 where
    pub books :
        (c : Ctx W)
        → owed (m c).1.shared.world
          ≡ queue_result (handle_io_pending (m c).0) c.handle.header (owed c.shared.world)

  Same-trans : (a b c : Ctx W) → Same a b → Same b c → Same a c
  Same-trans a b c h k = record { owes = k.owes ∙ h.owes; header = k.header ∙ h.header }

  pub Quiet-pure : {A : Type 0} (a : A) → Quiet (pure a)
  unfolding pure
  Quiet-pure a = record { at = λ c. record { owes = refl; header = refl } }

  pub Quiet-unwind : {A : Type 0} → Quiet {A = A} unwind
  unfolding unwind
  Quiet-unwind = record { at = λ c. record { owes = refl; header = refl } }

  pub Quiet-on_pool : {A : Type 0} (f : BufferPool → Outcome A × BufferPool) → Quiet (on_pool f)
  unfolding on_pool
  Quiet-on_pool f = record { at = λ c. record { owes = refl; header = refl } }

  continue-Same :
      {A B : Type 0} (r : Outcome A) (f : A → M W B) (b c : Ctx W)
      → Same b c
      → ((a : A) → Quiet (f a))
      → Same b (continue r f c).1
  continue-Same (ok a) f b c h ff = Same-trans b c (f a c).1 h ((ff a).at c)
  continue-Same (err e) f b c h ff = h
  continue-Same panic f b c h ff = h

  pub Quiet-bind :
      {A B : Type 0} (m : M W A) (f : A → M W B)
      → Quiet m
      → ((a : A) → Quiet (f a))
      → Quiet (m >>= f)
  unfolding ◌>>=◌
  Quiet-bind m f fm ff = record { at = λ c. continue-Same (m c).0 f c (m c).1 (fm.at c) ff }

  pub Quiet-if :
      {A : Type 0} (b : Bool) (m n : M W A) → Quiet m → Quiet n → Quiet (if b then m else n)
  Quiet-if true m n fm fn = fm
  Quiet-if false m n fm fn = fn

  if-Same :
      {A : Type 0} (b : Bool) (x y : Outcome A × Ctx W) (c : Ctx W)
      → Same c x.1
      → Same c y.1
      → Same c (if b then x else y).1
  if-Same true x y c hx hy = hx
  if-Same false x y c hx hy = hy

  pub Quiet-advance : (n : ℕ) → Quiet (advance n)
  unfolding advance
  Quiet-advance n = record {
    at = λ c.
        if-Same _ _ _ c (record { owes = refl; header = refl })
          (record { owes = refl; header = refl });
  }

  continue-Queues :
      {A B : Type 0} (r : Outcome A) (f : A → M W B) (b c : Ctx W)
      → Same b c
      → IsSure r
      → ((a : A) → Queues (f a))
      → owed (continue r f c).1.shared.world
        ≡ queue_result (handle_io_pending (continue r f c).0) b.handle.header (owed b.shared.world)
  unfolding handle_io_pending
  continue-Queues (ok a) f b c h sure ff =
      (ff a).books c
      ∙ queue_same (handle_io_pending (f a c).0) c.handle.header b.handle.header _ _ h.header h.owes
  continue-Queues (err e) f b c h sure ff = absurd sure
  continue-Queues panic f b c h sure ff = h.owes

  -- A quiet action that reports no error of its own, before one that may queue.
  pub Queues-bind :
      {A B : Type 0} (m : M W A) (f : A → M W B)
      → Quiet m
      → ((c : Ctx W) → IsSure (m c).0)
      → ((a : A) → Queues (f a))
      → Queues (m >>= f)
  unfolding ◌>>=◌
  Queues-bind m f q sure ff = record {
    books = λ c. continue-Queues (m c).0 f c (m c).1 (q.at c) (sure c) ff;
  }

  continue-done :
      {A : Type 0} (r : Outcome A) (c b : Ctx W)
      → owed c.shared.world
        ≡ queue_result (handle_io_pending r) b.handle.header (owed b.shared.world)
      → owed (continue r (λ _. pure tt) c).1.shared.world
        ≡ queue_result
            (handle_io_pending (continue r (λ _. pure tt) c).0)
            b.handle.header
            (owed b.shared.world)
  unfolding pure handle_io_pending
  continue-done (ok a) c b h = h
  continue-done (err e) c b h = h
  continue-done panic c b h = h

  -- The result of the call is left out.
  pub Queues-done : {A : Type 0} (m : M W A) → Queues m → Queues (m >>= λ _. pure tt)
  unfolding ◌>>=◌
  Queues-done m q = record { books = λ c. continue-done (m c).0 (m c).1 c (q.books c) }
