-- ===== src/Socket/Ready/Collecting.antt =====
-- The collection of an accept: a socket can be released, and nothing panics.
use aiocp.Prelude.{ℕ, ◌≡◌, ◌≢◌, inl, inr, ◌==◌, Bool-cases}
use aiocp.Io.{Outcome, ok, err, panic, Poll, pending, ready, OverlappedResult}
use aiocp.Os.{Os, Memory, Call, success, failure}
use aiocp.Pool.SocketPool
use aiocp.Pool.SocketPool.{Winsock, SocketPool, take_socket}
use aiocp.Pool.SocketPool.Reuse.{IsValid}
use aiocp.Pool.SocketPool.Lent.{IsLent, IsLent-IsIdle, IsIdle-IsValid, release-IsLent}
use aiocp.Handle.{set_world}
use aiocp.Handle.Guard.{handle_result, result_of}
use aiocp.Socket.Defs.{Socket, SocketCtx, continue, ◌>>=◌, return, on_ctx, on_sockets, new, wrapped}
use aiocp.Socket.Accept.{collect, wrap}
use aiocp.Socket.Poll.{finish_accept}

module _ {W : Type 0} (os : Os W) (api : Winsock W) (m : Memory) where
  -- How the collection ends: it does not panic, and the pool can be cleared.
  abbrev Collected : {A : Type 0} → Outcome A × SocketCtx W → Type 0
  Collected (ok _, c) = IsValid c.sockets
  Collected (err e, c) = IsValid c.sockets
  Collected (panic, c) = ⊥

  wrapped-Collected :
      (address raw size : ℕ) (c : SocketCtx W) (r : Call × W)
      → IsValid c.sockets
      → let (x, s) = wrapped api raw address size c.ctx.shared r in
        Collected (x, record c { ctx = record c.ctx { shared = s } })
  unfolding wrapped
  wrapped-Collected address raw size c (success info, w) v = v
  wrapped-Collected address raw size c (failure e, w) v = v

  released-Collected :
      (address : ℕ) (r : Outcome ℕ) (p : SocketPool) (c : SocketCtx W) (s : ℕ)
      → r ≡ ok s
      → IsValid p
      → Collected (continue r (wrap api address) (record c { sockets = p }))
  unfolding wrap new
  released-Collected address r p c s e v = rw e (
      wrapped-Collected address s c.ctx.handle.pool.max_buffer_size (record c { sockets = p })
        (api.wsa_duplicate_socket s c.ctx.shared.world) v)

  collect-Collected :
      (address : ℕ) (r : OverlappedResult) (c : SocketCtx W)
      → IsLent c.sockets
      → Collected (collect api address r c)
  unfolding collect ◌>>=◌ on_sockets
  collect-Collected address r c h =
      let (s, e, v) = release-IsLent c.sockets h in
      let (x, p) = SocketPool.release c.sockets in released-Collected address x p c s e v

  -- Nothing of it panics.
  abbrev Finished : Outcome (Poll Socket) × SocketCtx W → Type 0
  Finished (r, c) = (r ≢ ok pending) × (r ≢ panic) × IsValid c.sockets

  ready-Finished :
      (r : Outcome Socket) (c : SocketCtx W)
      → Collected (r, c)
      → Finished (continue r (λ s. return (ready s)) c)
  unfolding return
  ready-Finished (ok s) c v = (λ e. cc, λ e. cc, v)
  ready-Finished (err x) c v = (λ e. cc, λ e. cc, v)
  ready-Finished panic c v = absurd v

  result-Finished :
      (address : ℕ) (call : Call) (c : SocketCtx W)
      → IsLent c.sockets
      → Finished
          (continue (result_of os call) (λ r. collect api address r >>= λ s. return (ready s)) c)
  unfolding ◌>>=◌ result_of
  result-Finished address (success n) c h =
      let (x, d) = collect api address (record { bytes_transferred = n }) c in
      ready-Finished x d (collect-Collected address (record { bytes_transferred = n }) c h)
  result-Finished address (failure e) c h = elim (Bool-cases (e == os.error_handle_eof)) [
    | inl q ↦ rw q (ready-Finished _ _ (collect-Collected address _ c h))
    | inr q ↦ elim (Bool-cases (e == os.error_broken_pipe)) [
      | inl p ↦ rw (q, p) (ready-Finished _ _ (collect-Collected address _ c h))
      | inr p ↦ rw (q, p) (λ x. cc, λ x. cc, IsIdle-IsValid c.sockets (IsLent-IsIdle c.sockets h))
    ]
  ]

  pub finish_accept-Finished :
      (address : ℕ) (c : SocketCtx W)
      → IsLent c.sockets
      → Finished (finish_accept os api m address c)
  unfolding finish_accept on_ctx handle_result ◌>>=◌
  finish_accept-Finished address c h =
      let (call, w) =
        os.get_overlapped_result c.ctx.handle.raw c.ctx.handle.header c.ctx.shared.world in
      result-Finished address call (record c { ctx = set_world w c.ctx }) h
