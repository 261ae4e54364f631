-- ===== src/Handle/Streams.antt =====
-- The two ways to read and to write: the future of an operation, and the async traits.
use aiocp.Prelude.{
  ℕ, ◌≡◌, refl, ap, ◌∙◌, Bool, Option, some, none, List, ◌++◌, length, drop, Bool-cases, inl, inr,
  leb, leb→le, leb→lt,
}
use aiocp.Io.{Outcome, ok, err, panic, Poll, pending, ready, OverlappedState, idle, in_progress}
use aiocp.Os.{Os, Memory, MemoryLaws}
use aiocp.Handle.Defs.{Ctx, M, ◌>>=◌, ◌>>◌, continue, pure, unwind, on_pool}
use aiocp.Handle.Guard.{lock, with_guard, close, submit, forget_or_drop, handle_result, advance}
use aiocp.Handle.Operation.{
  Operation, Output, filled, read_code, code, prepare as prepare_operation, collect, copied,
  apply_to,
}
use aiocp.Handle.Poll.{
  guarded, after, put_filled, finish_operation, poll_operation, poll, finish_read,
}
use aiocp.Handle.Poll as Polls
use aiocp.Handle.Futures.{read, poll_read}

module _ {W : Type 0} where
  -- A poll with another type of output.
  unfoldable pub map_ready :
      {A B : Type 0} → (A → B) → Outcome (Poll A) × Ctx W → Outcome (Poll B) × Ctx W
  map_ready f (ok pending, c) = (ok pending, c)
  map_ready f (ok (ready a), c) = (ok (ready (f a)), c)
  map_ready f (err e, c) = (err e, c)
  map_ready f (panic, c) = (panic, c)

  module _ {A B : Type 0} (f : A → B) where
    close-map_ready :
        (r : Outcome (Poll A)) (c : Ctx W) → close (map_ready f (r, c)) ≡ map_ready f (close (r, c))
    unfolding close map_ready
    close-map_ready (ok pending) c = refl
    close-map_ready (ok (ready a)) c = refl
    close-map_ready (err e) c = refl
    close-map_ready panic c = refl

    forget_or_drop-map_ready :
        (r : Outcome (Unit {0})) (c : Ctx W) → forget_or_drop r c ≡ map_ready f (forget_or_drop r c)
    unfolding forget_or_drop map_ready
    forget_or_drop-map_ready (ok _) c = refl
    forget_or_drop-map_ready (err e) c = refl
    forget_or_drop-map_ready panic c = refl

    continue-map_ready :
        {X : Type 0} (r : Outcome X) (g : X → M W (Poll B)) (h : X → M W (Poll A)) (c : Ctx W)
        → ((x : X) (b : Ctx W) → g x b ≡ map_ready f (h x b))
        → continue r g c ≡ map_ready f (continue r h c)
    unfolding map_ready
    continue-map_ready (ok x) g h c e = e x c
    continue-map_ready (err x) g h c e = refl
    continue-map_ready panic g h c e = refl

    guarded-map_ready :
        (issue : M W (Unit {0})) (finish : M W (Poll A)) (finish' : M W (Poll B))
        → ((b : Ctx W) → finish' b ≡ map_ready f (finish b))
        → (g : Option OverlappedState) (c : Ctx W)
        → guarded issue finish' g c ≡ map_ready f (guarded issue finish g c)
    unfolding guarded with_guard submit
    guarded-map_ready issue finish finish' e none c = unfold map_ready pure in refl
    guarded-map_ready issue finish finish' e (some idle) c =
        ap close (forget_or_drop-map_ready _ _) ∙ close-map_ready _ _
    guarded-map_ready issue finish finish' e (some in_progress) c =
        ap close (e c) ∙ close-map_ready _ _

-- What the future of a read reports of the bytes that the stream reports: their count, and the
-- caller's buffer with them at its front.
abbrev pub read_output : List ℕ → List ℕ → Output
read_output buf bytes = filled (length bytes) (bytes ++ drop (length bytes) buf)

module _ {W : Type 0} (os : Os W) (m : Memory) (laws : MemoryLaws m) where
  copied-put_filled :
      (buf bytes : List ℕ) (c : Ctx W)
      → (copied buf bytes >>= λ o. apply_to o.1 >> pure (ready o.0)) c
        ≡ map_ready (read_output buf) (
            (put_filled bytes (m.put_slice buf bytes) >>= λ w. advance (length w) >> pure (ready w))
              c)
  unfolding copied ◌>>=◌ put_filled pure unwind apply_to
  copied-put_filled buf bytes c = elim (Bool-cases (leb (length bytes) (length buf))) [
    | inl e ↦ rw e (
        rw (laws.put_slice_fits buf bytes (leb→le (length bytes) (length buf) e)) (
          continue-map_ready (read_output buf) (advance (length bytes) c).0 _ _
            (advance (length bytes) c).1 (λ x b. unfold map_ready in refl)))
    | inr e ↦ rw e (
        rw (laws.put_slice_over buf bytes (leb→lt (length bytes) (length buf) e))
          (unfold map_ready in refl))
  ]

  copied-released :
      (buf : List ℕ) (r : Outcome (List ℕ)) (c : Ctx W)
      → (let (x, b) = continue r (copied buf) c in
          continue x (λ o. apply_to o.1 >> pure (ready o.0)) b)
        ≡ map_ready (read_output buf) (
            continue r
              (λ bytes. put_filled bytes (m.put_slice buf bytes) >>= λ w.
                advance (length w) >> pure (ready w))
              c)
  copied-released buf (ok bytes) c = unfold ◌>>=◌ in copied-put_filled buf bytes c
  copied-released buf (err e) c = unfold map_ready in refl
  copied-released buf panic c = unfold map_ready in refl

  finish_operation-read :
      (buf : List ℕ) (c : Ctx W)
      → finish_operation os m (Operation.read buf) c
        ≡ map_ready (read_output buf) (finish_read os m buf c)
  unfolding finish_operation finish_read ◌>>=◌ collect
  finish_operation-read buf c =
      continue-map_ready (read_output buf) (handle_result os c).0 _ _ (handle_result os c).1
        (λ r b. unfold on_pool in copied-released buf _ _)

  -- A future of `Handle::read` and the async trait read alike: on any handle and state, a poll of the
  -- one has the answer of a poll of the other, and leaves the same state behind.
  pub read-poll_read :
      (spurious : Bool) (waker : ℕ) (buf : List ℕ) (c : Ctx W)
      → poll os m spurious waker (read buf) c
        ≡ after
            (Operation.read buf)
            (map_ready (read_output buf) (poll_read os m spurious waker buf c))
  unfolding read poll poll_operation poll_read ◌>>=◌ prepare_operation code guarded Polls.poll_read
      lock
  read-poll_read spurious waker buf c = ap (after (Operation.read buf)) (
      continue-map_ready (read_output buf) (lock os spurious read_code waker c).0 _ _
        (lock os spurious read_code waker c).1
        (λ g b.
          guarded-map_ready (read_output buf) _ (finish_read os m buf)
            (finish_operation os m (Operation.read buf)) (finish_operation-read buf) g b))
