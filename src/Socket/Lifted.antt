-- ===== src/Socket/Lifted.antt =====
-- The methods of a socket against those of a handle: what the theorems on polls use is what the
-- source does.
use aiocp.Prelude.{ℕ, ◌≡◌, refl, Bool, true, false, Option, some, none, Bool-cases, inl, inr}
use aiocp.Io.{Outcome, ok, err, panic, OverlappedState, idle, in_progress}
use aiocp.Prelude.Int.{is_pos}
use aiocp.Os.{Os, Memory}
use aiocp.Task
use aiocp.Task.{LockResult, acquired, busy}
use aiocp.Pool.SocketPool.{Winsock}
use aiocp.Handle.{Ctx, M, own_header, set_port}
use aiocp.Handle as Base
use aiocp.Handle.Guard as Guard
use aiocp.Socket.Defs.{SocketCtx, N, continue, ◌>>=◌, return, on_ctx}
use aiocp.Socket.Own as Own
use aiocp.Socket.Accept.{accept_code}
use aiocp.Socket.Poll.{poll_accept, guarded, finish_accept}

module _ {W : Type 0} where
  continue-on_ctx :
      {A B : Type 0} (r : Outcome A) (f : A → M W B) (f' : A → N W B) (b : Ctx W) (c : SocketCtx W)
      → ((a : A) (d : SocketCtx W) → f' a d ≡ on_ctx (f a) d)
      → continue r f' (record c { ctx = b })
        ≡ (let (s, b') = Base.continue r f b in (s, record c { ctx = b' }))
  continue-on_ctx (ok a) f f' b c g = unfold on_ctx in g a (record c { ctx = b })
  continue-on_ctx (err e) f f' b c g = refl
  continue-on_ctx panic f f' b c g = refl

  -- Two actions in sequence on the fields of a handle.
  on_ctx-bind :
      {A B : Type 0} (x : M W A) (f : A → M W B) (x' : N W A) (f' : A → N W B) (c : SocketCtx W)
      → x' c ≡ on_ctx x c
      → ((a : A) (b : SocketCtx W) → f' a b ≡ on_ctx (f a) b)
      → (x' >>= f') c ≡ on_ctx (Base.◌>>=◌ x f) c
  unfolding ◌>>=◌ on_ctx Base.◌>>=◌
  on_ctx-bind x f x' f' c e g = rw e (continue-on_ctx (x c.ctx).0 f f' (x c.ctx).1 c g)

module _ {W : Type 0} (os : Os W) where
  locked-on_ctx :
      (r : LockResult) (c : SocketCtx W) → Own.locked os r c ≡ on_ctx (Guard.locked os r) c
  unfolding on_ctx Own.locked Guard.locked Own.cancel_immediate Guard.cancel_immediate
      Own.return_permit Guard.return_permit
  locked-on_ctx (acquired state) c = refl
  locked-on_ctx (busy true) c = refl
  locked-on_ctx (busy false) c = refl

  lock-on_ctx :
      (spurious : Bool) (code waker : ℕ) (c : SocketCtx W)
      → Own.lock os spurious code waker c ≡ on_ctx (Guard.lock os spurious code waker) c
  unfolding Own.lock Guard.lock
  lock-on_ctx spurious code waker c =
      on_ctx-bind _ _ _ _ c (unfold Own.take_permit Guard.take_permit on_ctx in refl) (λ _ b.
        on_ctx-bind _ _ _ _ b
          (unfold Own.act Own.register_by_ref Guard.register_by_ref Base.modify on_ctx in refl)
          (λ _ d.
            on_ctx-bind _ _ _ _ d (unfold Own.lock_header Guard.lock_header on_ctx in refl)
              (locked-on_ctx)))

  result-on_ctx : (c : SocketCtx W) → Own.result os c ≡ on_ctx (Guard.handle_result os) c
  unfolding Own.result Guard.handle_result on_ctx
  result-on_ctx c = refl

  cancel_if_pending-on_ctx :
      (c : SocketCtx W) → Own.drop_socket os c ≡ record c { ctx = Guard.cancel_if_pending os c.ctx }
  unfolding Own.drop_socket Own.cancel_if_pending Guard.cancel_if_pending Own.cancel_immediate
      Guard.cancel_immediate Task.state
  cancel_if_pending-on_ctx c = elim (Bool-cases (is_pos (own_header c.ctx).lock)) [
    | inl e ↦ rw (e, Own.cancel_if_pending, Guard.cancel_if_pending) refl
    | inr e ↦ rw (e, Own.cancel_if_pending, Guard.cancel_if_pending) refl
  ]

module _ {W : Type 0} (os : Os W) (api : Winsock W) (m : Memory) where
  finish_accept-own :
      (address : ℕ) (c : SocketCtx W)
      → Own.finish_accept os api m address c ≡ finish_accept os api m address c
  unfolding Own.finish_accept finish_accept ◌>>=◌ Own.apply_to return
  finish_accept-own address c = rw (result-on_ctx os c)

  guarded-own :
      (address : ℕ) (g : Option OverlappedState) (c : SocketCtx W)
      → Own.guarded os api m address g c ≡ guarded os api m address g c
  unfolding Own.guarded guarded
  guarded-own address none c = refl
  guarded-own address (some idle) c = refl
  guarded-own address (some in_progress) c = rw (finish_accept-own address c)

  continue-same :
      {A B : Type 0} (r : Outcome A) (f g : A → N W B) (c : SocketCtx W)
      → ((a : A) (b : SocketCtx W) → f a b ≡ g a b)
      → continue r f c ≡ continue r g c
  continue-same (ok a) f g c e = e a c
  continue-same (err x) f g c e = refl
  continue-same panic f g c e = refl

  -- For any socket and state, a poll of an accept that uses the socket's own `lock`, `result` and
  -- `apply_to` is the poll with the methods of the handle that it contains; and dropping a socket
  -- does to it what dropping a handle does.
  pub poll_accept-own :
      (spurious : Bool) (waker address : ℕ) (c : SocketCtx W)
      → (Own.poll_accept os api m spurious waker address c
          ≡ poll_accept os api m spurious waker address c)
        × (Own.drop_socket os c ≡ record c { ctx = Guard.cancel_if_pending os c.ctx })
  unfolding Own.poll_accept poll_accept ◌>>=◌
  poll_accept-own spurious waker address c = (
    rw (lock-on_ctx os spurious accept_code waker c) (continue-same _ _ _ _ (guarded-own address)),
    cancel_if_pending-on_ctx os c,
  )
