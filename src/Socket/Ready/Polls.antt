-- ===== src/Socket/Ready/Polls.antt =====
-- A poll of an accept on a listener that is ready.
use aiocp.Socket.Ready.Clearing.{OfAccept, IsReady, Told, header_lock-Told, close-IsReady}
use aiocp.Socket.Ready.Submitting.{Prepared, prepare-Prepared}
use aiocp.Socket.Ready.Collecting.{finish_accept-Finished}
use aiocp.Prelude.{ℕ, ◌≡◌, refl, sym, ◌∙◌, inl, inr, Bool, true, false, some, arith, Bool-cases}
use aiocp.Prelude.Int.{negsuc}
use mathlib.Core.Path.{subst}
use aiocp.Io.{Outcome, ok, err, panic, Poll, pending, ready, idle, in_progress, handle_io_pending}
use aiocp.Os.{Os, Memory}
use aiocp.Task.{Header, LockResult, acquired, busy, header_lock}
use aiocp.Port.{is_nonneg}
use aiocp.Pool.BufferPool.{take_buffer}
use aiocp.Pool.SocketPool.{Winsock}
use aiocp.Pool.SocketPool.Lent.{IsIdle, IsLent, SocketErrors, IsIdle-IsValid}
use aiocp.Handle.{Ctx, own_header}
use aiocp.Handle.Guard.{locked, return_permit, cancel_immediate, drop_overlapped}
use aiocp.Handle.Locking.{entered, reply, lock-granted, lock-refused}
use aiocp.Socket.Defs.{Socket, SocketCtx, ◌>>=◌, on_ctx}
use aiocp.Socket.Guard.{prepare, close, forget_or_drop, submit}
use aiocp.Socket.Accept
use aiocp.Socket.Accept.{accept_code, accept, answered, collect, wrap}
use aiocp.Socket.Poll.{State, running, complete, after, finish_accept, guarded, poll_accept, poll}

module _ {W : Type 0} (os : Os W) (api : Winsock W) (m : Memory) where
  -- After a poll: the listener is ready, and a panic is that of the lending of a buffer.
  abbrev pub Lands : SocketCtx W → Outcome (Poll Socket) × SocketCtx W → Type 0
  Lands b (r, c) = IsReady c × (r ≡ panic → (take_buffer m 128 b.ctx.handle.pool).0 ≡ panic)

  lent-IsReady : (c : SocketCtx W) → IsLent c.sockets → IsReady c
  lent-IsReady c h = record {
    unreleased = h.unreleased;
    in_list = h.in_list;
    taken = λ o. h.some_taken;
  }

  submitted-Lands :
      (r : Outcome (Unit {0})) (b c : SocketCtx W)
      → Prepared os api m b (r, c)
      → Lands b (close os api (forget_or_drop api r c))
  unfolding forget_or_drop
  submitted-Lands (ok _) b c h = unfold close in (lent-IsReady c h, λ e. cc)
  submitted-Lands (err x) b c h =
      let d =
        close-IsReady os api m (err x) (record c { ctx = drop_overlapped c.ctx }) (λ e. cc)
          (IsIdle-IsValid c.sockets h) in
      (d.1, λ e. cc (d.0, e))
  submitted-Lands panic b c h =
      let d =
        close-IsReady os api m panic (record c { ctx = drop_overlapped c.ctx }) (λ e. cc)
          (IsIdle-IsValid c.sockets h.0) in
      (d.1, λ e. h.1)

  ready-IsLent :
      (c : SocketCtx W)
      → IsReady c
      → (own_header c.ctx).lock ≡ negsuc accept_code
      → IsLent c.sockets
  ready-IsLent c v e = record {
    unreleased = v.unreleased;
    in_list = v.in_list;
    some_taken = v.taken (inr e);
  }

  same_header-IsReady :
      (c : SocketCtx W) (b : Ctx W)
      → IsReady c
      → own_header b ≡ own_header c.ctx
      → IsReady (record c { ctx = b })
  same_header-IsReady c b v e = record {
    unreleased = v.unreleased;
    in_list = v.in_list;
    taken = λ o. v.taken (subst OfAccept e o);
  }

module _ {W : Type 0} (os : Os W) (api : Winsock W) (m : Memory) (answers : SocketErrors api) where
  idle-Lands :
      (address : ℕ) (b : SocketCtx W)
      → IsIdle b.sockets
      → Lands os api m b (guarded os api m address (some idle) b)
  unfolding guarded submit prepare
  idle-Lands address b h =
      let (r, c) = Accept.prepare api m (prepare b) in
      submitted-Lands os api m (handle_io_pending r) (prepare b) c
        (prepare-Prepared os api m answers (prepare b) h)

  collecting-Lands :
      (address : ℕ) (b : SocketCtx W)
      → IsLent b.sockets
      → Lands os api m b (guarded os api m address (some in_progress) b)
  unfolding guarded
  collecting-Lands address b h =
      let (r, c) = finish_accept os api m address b in
      let (over, calm, v) = finish_accept-Finished os api m address b h in
      let d = close-IsReady os api m r c over v in (d.1, λ e. absurd (calm (sym d.0 ∙ e)))

  locked-Lands :
      (address : ℕ) (r : LockResult) (h : Header) (c : SocketCtx W) (b : Ctx W)
      → IsReady c
      → Told r (own_header c.ctx) h
      → own_header b ≡ h
      → Lands os api m
          (record c { ctx = b })
          ((on_ctx (λ _. locked os r b) >>= guarded os api m address) c)
  unfolding ◌>>=◌ on_ctx locked cancel_immediate return_permit
  locked-Lands address (acquired idle) h c b v t e =
      idle-Lands address (record c { ctx = b })
        (record { unreleased = v.unreleased; in_list = v.in_list })
  locked-Lands address (acquired in_progress) h c b v t e =
      collecting-Lands address (record c { ctx = b }) (ready-IsLent os api m c v t)
  locked-Lands address (busy true) h c b v t e =
      unfold guarded in (same_header-IsReady os api m c _ v (e ∙ t), λ x. cc)
  locked-Lands address (busy false) h c b v t e =
      unfold guarded in (same_header-IsReady os api m c _ v (e ∙ t), λ x. cc)

  entered_header :
      (spurious : Bool) (waker : ℕ) (c : Ctx W)
      → own_header (entered os spurious accept_code waker c)
        ≡ (header_lock spurious accept_code (own_header c)).1
  entered_header spurious waker c = ground arith

  poll_accept-Lands :
      (spurious : Bool) (waker address : ℕ) (c : SocketCtx W)
      → IsReady c
      → Lands os api m c (poll_accept os api m spurious waker address c)
  unfolding poll_accept ◌>>=◌ on_ctx
  poll_accept-Lands spurious waker address c v =
      elim (Bool-cases (is_nonneg c.ctx.shared.port.pending)) [
        | inl e ↦ rw (lock-granted os spurious accept_code waker c.ctx e) (
            locked-Lands address (reply spurious accept_code c.ctx)
              (header_lock spurious accept_code (own_header c.ctx)).1 c
              (entered os spurious accept_code waker c.ctx) v
              (header_lock-Told spurious (own_header c.ctx) (reply spurious accept_code c.ctx) refl)
              (entered_header spurious waker c.ctx))
        | inr e ↦
            rw (lock-refused os spurious accept_code waker c.ctx e)
              (same_header-IsReady os api m c _ v refl, λ x. cc)
      ]

  after-Lands :
      (b : SocketCtx W) (x : Outcome (Poll Socket) × SocketCtx W)
      → Lands os api m b x
      → let (r, _, c) = after x in Lands os api m b (r, c)
  unfolding after
  after-Lands b (ok pending, c) h = h
  after-Lands b (ok (ready s), c) h = h
  after-Lands b (err e, c) h = h
  after-Lands b (panic, c) h = h

  pub poll-Lands :
      (spurious : Bool) (waker address : ℕ) (state : State) (c : SocketCtx W)
      → IsReady c
      → let (r, _, c') = poll os api m spurious waker address state c in Lands os api m c (r, c')
  unfolding poll
  poll-Lands spurious waker address running c v =
      after-Lands c (poll_accept os api m spurious waker address c)
        (poll_accept-Lands spurious waker address c v)
  poll-Lands spurious waker address complete c v = (v, λ e. cc)
