-- ===== src/Socket/Placed.antt =====
-- Where a poll of an accept leaves the header of a connection: with the caller, or freed.
use aiocp.Prelude.{
  ℕ, ◌≡◌, ◌≢◌, refl, ◌∙◌, ◌⊎◌, inl, inr, Bool, true, false, Option, none, some, arith, Bool-cases,
}
use aiocp.Io.{
  Outcome, ok, err, panic, Poll, pending, ready, OverlappedState, idle, in_progress,
  handle_io_pending,
}
use aiocp.Os.{Os, Memory}
use aiocp.Task
use aiocp.Task.{Header, LockResult, acquired, busy, unlock_to_open, header_lock}
use aiocp.Port.{is_nonneg}
use aiocp.Pool.BufferPool
use aiocp.Pool.SocketPool
use aiocp.Pool.SocketPool.{Winsock, SocketPool}
use mathlib.Core.Path.{subst}
use aiocp.Handle.{Ctx, set_pool}
use aiocp.Handle.Guard.{locked, return_permit, drop_overlapped, cancel_immediate}
use aiocp.Handle.Cancel.{cancel_if_pending-either}
use aiocp.Handle.Locking.{entered, reply, lock-granted, lock-refused}
use aiocp.Socket.Defs.{Socket, SocketCtx, ◌>>=◌, on_ctx}
use aiocp.Socket.Guard.{
  prepare, cleared, discard, dropped, drop_guard, close, forget_or_drop, submit,
}
use aiocp.Socket.Accept
use aiocp.Socket.Accept.{accept_code}
use aiocp.Socket.Poll.{finish_accept, guarded, poll_accept}
use aiocp.Socket.Frames.{Frames-prepare, Frames-finish_accept}
use aiocp.Socket.Connection.{Made, heap_of, finish_accept-Made}

-- The caller has a socket whose header is new, or no one has the header.
abbrev pub Placed : {W : Type 0} → ℕ → Header → Outcome (Poll Socket) → SocketCtx W → Type 0
Placed address before (ok (ready s)) c = (s.base.header ≡ address) × (heap_of c address ≡ Task.new)
Placed address before (ok pending) c =
    (heap_of c address ≡ before) ⊎ ((heap_of c address).strong ≡ 0)
Placed address before (err e) c = (heap_of c address ≡ before) ⊎ ((heap_of c address).strong ≡ 0)
Placed address before panic c = (heap_of c address ≡ before) ⊎ ((heap_of c address).strong ≡ 0)

module _ (address : ℕ) where
  Made-heap :
      (before : Header) (r : Outcome (Poll Socket)) (f g : ℕ → Header)
      → g address ≡ f address
      → Made address before r f
      → Made address before r g
  Made-heap before (ok pending) f g e h = h
  Made-heap before (ok (ready s)) f g e h = (h.0, e ∙ h.1)
  Made-heap before (err x) f g e h = e ∙ h
  Made-heap before panic f g e h = e ∙ h

module _ {W : Type 0} (address : ℕ) where
  cleared-at :
      (b : Ctx W) (p : SocketPool) (r : Outcome (SocketPool × W))
      → address ≢ b.handle.header
      → heap_of (cleared b p r).1 address ≡ b.shared.heap address
  unfolding cleared return_permit unlock_to_open
  cleared-at b p (ok (q, w)) ne = ground arith
  cleared-at b p (err e) ne = refl
  cleared-at b p panic ne = refl

module _ {W : Type 0} (os : Os W) (api : Winsock W) (m : Memory) (address : ℕ) where
  drop_guard-at :
      (b : SocketCtx W)
      → address ≢ b.ctx.handle.header
      → heap_of (drop_guard api b).1 address ≡ heap_of b address
  unfolding drop_guard BufferPool.clear
  drop_guard-at b ne =
      let b' = set_pool (BufferPool.clear b.ctx.handle.pool) b.ctx in
      cleared-at address b' b.sockets (SocketPool.clear api b.sockets b'.shared.world) ne

  discard-at :
      (s : Socket) (c : SocketCtx W)
      → s.base.header ≡ address
      → heap_of c address ≡ Task.new
      → (heap_of (discard os s c) address).strong ≡ 0
  unfolding discard cancel_immediate
  discard-at s c at e = elim (cancel_if_pending-either os (record c.ctx { handle = s.base })) [
    | inl p ↦ rw p (ground (arith, at, e))
    | inr p ↦ rw p (ground (arith, at, e))
  ]

  dropped-Placed :
      (before : Header) (r : Outcome (Poll Socket)) (d : Outcome (Unit {0}) × SocketCtx W)
      → Made address before r (heap_of d.1)
      → let (x, c) = dropped os r d in Placed address before x c
  unfolding dropped
  dropped-Placed before (ok pending) d h = absurd h
  dropped-Placed before (ok (ready s)) (ok _, c) h = h
  dropped-Placed before (ok (ready s)) (err e, c) h = inr (discard-at s c h.0 h.1)
  dropped-Placed before (ok (ready s)) (panic, c) h = inr (discard-at s c h.0 h.1)
  dropped-Placed before (err y) (ok _, c) h = inl h
  dropped-Placed before (err y) (err e, c) h = inl h
  dropped-Placed before (err y) (panic, c) h = inl h
  dropped-Placed before panic (ok _, c) h = inl h
  dropped-Placed before panic (err e, c) h = inl h
  dropped-Placed before panic (panic, c) h = inl h

  close-Placed :
      (before : Header) (r : Outcome (Poll Socket)) (b : SocketCtx W)
      → address ≢ b.ctx.handle.header
      → Made address before r (heap_of b)
      → let (x, c) = close os api (r, b) in Placed address before x c
  unfolding close
  close-Placed before (ok pending) b ne h = absurd h
  close-Placed before (ok (ready s)) b ne h =
      dropped-Placed before (ok (ready s)) (drop_guard api b) (
        Made-heap address before (ok (ready s)) (heap_of b) (heap_of (drop_guard api b).1)
          (drop_guard-at b ne) h)
  close-Placed before (err e) b ne h =
      dropped-Placed before (err e) (drop_guard api b) (drop_guard-at b ne ∙ h)
  close-Placed before panic b ne h =
      dropped-Placed before panic (drop_guard api b) (drop_guard-at b ne ∙ h)

  forget_or_drop-Placed :
      (before : Header) (r : Outcome (Unit {0})) (b : SocketCtx W)
      → address ≢ b.ctx.handle.header
      → heap_of b address ≡ before
      → let (x, c) = close os api (forget_or_drop api r b) in Placed address before x c
  unfolding forget_or_drop drop_overlapped
  forget_or_drop-Placed before (ok _) b ne h = unfold close in inl h
  forget_or_drop-Placed before (err e) b ne h =
      close-Placed before (err e) (record b { ctx = drop_overlapped b.ctx }) ne
        (ground (arith, h, ne))
  forget_or_drop-Placed before panic b ne h =
      close-Placed before panic (record b { ctx = drop_overlapped b.ctx }) ne
        (ground (arith, h, ne))

  prepare-at :
      (b : SocketCtx W)
      → address ≢ b.ctx.handle.header
      → heap_of (prepare b) address ≡ heap_of b address
  unfolding prepare
  prepare-at b ne = ground arith

  guarded-Placed :
      (g : Option OverlappedState) (before : Header) (b : SocketCtx W)
      → address ≢ b.ctx.handle.header
      → heap_of b address ≡ before
      → let (x, c) = guarded os api m address g b in Placed address before x c
  unfolding guarded submit
  guarded-Placed none before b ne h = inl h
  guarded-Placed (some idle) before b ne h =
      let b' = prepare b in
      let k = (Frames-prepare os api m b'.ctx.handle.header b'.ctx.handle.header).at b' refl in
      let same : b'.ctx.handle.header ≡ b.ctx.handle.header = unfold prepare in refl in
      let apart : address ≢ b'.ctx.handle.header = λ e. ne (e ∙ same) in
      forget_or_drop-Placed before (handle_io_pending (Accept.prepare api m b').0)
        (Accept.prepare api m b').1 (λ e. apart (e ∙ k.header))
        (k.others address apart apart ∙ prepare-at b ne ∙ h)
  guarded-Placed (some in_progress) before b ne h =
      let (r, b') = finish_accept os api m address b in
      let k = (Frames-finish_accept os api m b.ctx.handle.header address ne).at b refl in
      close-Placed before r b' (λ e. ne (e ∙ k.header))
        (subst (λ x. Made address x r (heap_of b')) h (finish_accept-Made api address os m b))

  locked-Placed :
      (r : LockResult) (before : Header) (c : SocketCtx W) (b : Ctx W)
      → address ≢ b.handle.header
      → b.shared.heap address ≡ before
      → let (x, c') = (on_ctx (λ _. locked os r b) >>= guarded os api m address) c in
        Placed address before x c'
  unfolding ◌>>=◌ on_ctx locked cancel_immediate return_permit
  locked-Placed (acquired state) before c b ne h =
      guarded-Placed (some state) before (record c { ctx = b }) ne h
  locked-Placed (busy true) before c b ne h = guarded-Placed none before _ ne h
  locked-Placed (busy false) before c b ne h = guarded-Placed none before _ ne h

  -- However a poll of an accept ends: the caller has a connection whose header is new and at that
  -- address, or else the header there is as before or has no count.
  pub poll_accept-Placed :
      (spurious : Bool) (waker : ℕ) (c : SocketCtx W)
      → address ≢ c.ctx.handle.header
      → let (x, c') = poll_accept os api m spurious waker address c in
        Placed address (heap_of c address) x c'
  unfolding poll_accept ◌>>=◌ on_ctx
  poll_accept-Placed spurious waker c ne = elim (Bool-cases (is_nonneg c.ctx.shared.port.pending)) [
    | inl e ↦ rw (lock-granted os spurious accept_code waker c.ctx e) (
        locked-Placed (reply spurious accept_code c.ctx) (heap_of c address) c
          (entered os spurious accept_code waker c.ctx) ne (ground arith))
    | inr e ↦ rw (lock-refused os spurious accept_code waker c.ctx e) (inl refl)
  ]
