-- ===== src/Socket/Defs.antt =====
-- The state that a socket's methods work on, and the monad that they run in.
use aiocp.Prelude.{ℕ}
use aiocp.Io.{Outcome, ok, err, panic}
use aiocp.Shared.{Shared}
use aiocp.Pool.SocketPool
use aiocp.Pool.SocketPool.{SocketPool, Winsock}
use aiocp.Os.{Call, success, failure}
use aiocp.Io.{os_error}
use aiocp.Handle.{Handle, Ctx, M, set_world}
use aiocp.Handle as Base

-- `Socket<S>` has the fields of a handle, the raw socket in place of the raw handle, and a pool of
-- sockets.
pub record Socket : Type 0 where
  pub base : Handle
  pub sockets : SocketPool

-- The methods of `Socket` that have the text of those of `Handle` run on `ctx`.
pub record SocketCtx (W : Type 0) : Type 0 where
  pub ctx : Ctx W
  pub sockets : SocketPool

abbrev pub N : Type 0 → Type 0 → Type 0
N W A = SocketCtx W → Outcome A × SocketCtx W

module _ {W : Type 0} where
  unfoldable pub return : {A : Type 0} → A → N W A
  return a c = (ok a, c)

  unfoldable pub on_ctx : {A : Type 0} → M W A → N W A
  on_ctx m c = let (r, b) = m c.ctx in (r, record c { ctx = b })

  -- A method of the pool of sockets, without and with calls of the system.
  unfoldable pub on_sockets : {A : Type 0} → (SocketPool → Outcome A × SocketPool) → N W A
  on_sockets f c = let (r, p) = f c.sockets in (r, record c { sockets = p })

  unfoldable pub on_sockets_world :
      {A : Type 0} → (SocketPool → W → Outcome A × SocketPool × W) → N W A
  on_sockets_world f c =
      let (r, p, w) = f c.sockets c.ctx.shared.world in
      (r, record { ctx = set_world w c.ctx; sockets = p })

abbrev pub continue : {W A B : Type 0} → Outcome A → (A → N W B) → N W B
continue (ok a) f c = f a c
continue (err e) f c = (err e, c)
continue panic f c = (panic, c)

infixl 5 ◌>>=◌ ◌>>◌
unfoldable pub ◌>>=◌ : {W A B : Type 0} → N W A → (A → N W B) → N W B
unfolding return on_ctx on_sockets on_sockets_world
◌>>=◌ m f c = let (r, c') = m c in continue r f c'

abbrev pub ◌>>◌ : {W B : Type 0} → N W (Unit {0}) → N W B → N W B
m >> k = m >>= λ _. k

module _ {W : Type 0} (api : Winsock W) where
  unfoldable pub wrapped : ℕ → ℕ → ℕ → Shared W → Call × W → Outcome Socket × Shared W
  unfolding Base.new SocketPool.new
  wrapped raw address size s (success info, w) =
      let (h, s') = Base.new raw address size (record s { world = w }) in
      (ok (record { base = h; sockets = SocketPool.new info }), s')
  wrapped raw address size s (failure e, w) = (err (os_error e), record s { world = w })

  -- `Socket::new`: the protocol information of the socket is fetched first; `address` is where the
  -- new header is allocated.
  unfoldable pub new : ℕ → ℕ → ℕ → Shared W → Outcome Socket × Shared W
  unfolding wrapped
  new raw address size s = wrapped raw address size s (api.wsa_duplicate_socket raw s.world)

-- `Socket::duplicate`
unfoldable pub duplicate : {W : Type 0} → ℕ → SocketCtx W → Socket × Shared W
unfolding Base.new SocketPool.new
duplicate address c =
    let (h, s) = Base.new c.ctx.handle.raw address c.ctx.handle.pool.max_buffer_size c.ctx.shared in
    (record { base = h; sockets = SocketPool.new c.sockets.info }, s)
