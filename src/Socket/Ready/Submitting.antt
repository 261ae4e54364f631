-- ===== src/Socket/Ready/Submitting.antt =====
-- The submission of an accept: what it takes from the pool of sockets, and when it panics.
use aiocp.Prelude.{ℕ, ◌≡◌, ◌≢◌, refl, ap, inl, inr, ◌==◌, arith, Bool-cases}
use aiocp.Io.{Outcome, ok, err, panic, handle_io_pending, os_error, error_io_pending}
use aiocp.Os.{Os, Memory, Call, success, failure}
use aiocp.Pool.BufferPool.{ReadBuf, take_buffer}
use aiocp.Pool.SocketPool.{Winsock, SocketPool, take_socket}
use aiocp.Pool.SocketPool.Lent.{
  IsIdle, IsLent, SocketErrors, Taken, IsLent-IsIdle, take_socket-Taken,
}
use aiocp.Handle.{on_pool, set_world}
use aiocp.Handle.Books.Rules.{IsSure}
use aiocp.Handle.Books.Calls.{take_buffer-IsSure}
use aiocp.Socket.Defs.{SocketCtx, N, continue, ◌>>=◌, on_ctx, on_sockets_world}
use aiocp.Socket.Accept
use aiocp.Socket.Accept.{accept_code, accept, answered, collect, wrap}

module _ {W : Type 0} (os : Os W) (api : Winsock W) (m : Memory) where
  -- How the submission ends: `b` is the state before it.
  abbrev pub Prepared : SocketCtx W → Outcome (Unit {0}) × SocketCtx W → Type 0
  Prepared b (ok _, c) = IsLent c.sockets
  Prepared b (err e, c) = IsIdle c.sockets
  Prepared b (panic, c) = IsIdle c.sockets × ((take_buffer m 128 b.ctx.handle.pool).0 ≡ panic)

  answered-Prepared :
      (call : Call) (b c : SocketCtx W)
      → IsLent c.sockets
      → Prepared b (handle_io_pending (answered call), c)
  unfolding handle_io_pending
  answered-Prepared (success n) b c h = h
  answered-Prepared (failure e) b c h = elim (Bool-cases (e == error_io_pending)) [
    | inl q ↦ rw q h
    | inr q ↦ rw q (IsLent-IsIdle c.sockets h)
  ]

  abbrev rest : ℕ → ReadBuf → N W (Unit {0})
  rest s o = accept api s o.size 16 16

  buffer-Prepared :
      (r : Outcome ReadBuf) (s : ℕ) (b c : SocketCtx W)
      → (take_buffer m 128 b.ctx.handle.pool).0 ≡ r
      → IsSure r
      → IsLent c.sockets
      → let (x, d) = continue r (rest s) c in Prepared b (handle_io_pending x, d)
  unfolding accept handle_io_pending
  buffer-Prepared (ok o) s b c e sure h =
      answered-Prepared
        (api.accept_ex c.ctx.handle.raw s o.size 16 16 c.ctx.handle.header c.ctx.shared.world).0 b _
        h
  buffer-Prepared (err x) s b c e sure h = absurd sure
  buffer-Prepared panic s b c e sure h = (IsLent-IsIdle c.sockets h, e)

  Taken-Prepared :
      (r : Outcome ℕ) (p : SocketPool) (w : W) (b : SocketCtx W)
      → Taken (r, p, w)
      → let (x, d) =
          continue r
            (λ s. on_ctx (on_pool (take_buffer m 128)) >>= rest s)
            (record { ctx = set_world w b.ctx; sockets = p }) in
        Prepared b (handle_io_pending x, d)
  unfolding ◌>>=◌ on_ctx on_pool handle_io_pending
  Taken-Prepared (ok s) p w b t =
      buffer-Prepared (take_buffer m 128 b.ctx.handle.pool).0 s b _ refl
        (take_buffer-IsSure m 128 b.ctx.handle.pool) t
  Taken-Prepared (err (os_error n)) p w b t =
      let ne : n ≢ error_io_pending = λ q. t.1 (ap os_error q) in
      elim (Bool-cases (n == error_io_pending)) [ inl q ↦ ground (arith, ne, q) | inr q ↦ rw q t.0 ]
  Taken-Prepared (err x) p w b t = t.0
  Taken-Prepared panic p w b t = absurd t

  pub prepare-Prepared :
      (answers : SocketErrors api) (b : SocketCtx W)
      → IsIdle b.sockets
      → let (r, c) = Accept.prepare api m b in Prepared b (handle_io_pending r, c)
  unfolding Accept.prepare ◌>>=◌ on_sockets_world
  prepare-Prepared answers b h =
      let (r, p, w) = take_socket api b.sockets b.ctx.shared.world in
      Taken-Prepared r p w b (take_socket-Taken api answers b.sockets b.ctx.shared.world h)
