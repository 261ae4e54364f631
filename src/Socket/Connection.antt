-- ===== src/Socket/Connection.antt =====
-- The header of an accepted connection: where it is, and that there is none if the accept fails.
use aiocp.Prelude.{ℕ, ◌≡◌, refl, arith}
use aiocp.Io.{Outcome, ok, err, panic, Poll, pending, ready, OverlappedResult}
use aiocp.Os.{Os, Memory, Call, success, failure}
use aiocp.Task
use aiocp.Task.{Header}
use aiocp.Shared.{Shared}
use aiocp.Pool.SocketPool
use aiocp.Pool.SocketPool.{Winsock}
use aiocp.Handle as Base
use aiocp.Handle.Guard.{handle_result}
use aiocp.Socket.Defs.{Socket, SocketCtx, continue, ◌>>=◌, return, on_ctx, on_sockets, new, wrapped}
use aiocp.Socket.Accept.{collect, wrap}
use aiocp.Socket.Poll.{finish_accept}

abbrev pub heap_of : {W : Type 0} → SocketCtx W → ℕ → Header
heap_of c = c.ctx.shared.heap

module _ (address : ℕ) (before : Header) where
  -- A new socket has a new header at the address; a failure leaves what was there.
  abbrev Wraps : Outcome Socket → (ℕ → Header) → Type 0
  Wraps (ok s) heap = (s.base.header ≡ address) × (heap address ≡ Task.new)
  Wraps (err e) heap = heap address ≡ before
  Wraps panic heap = heap address ≡ before

  -- So does the branch of a poll that collects the result.
  abbrev pub Made : Outcome (Poll Socket) → (ℕ → Header) → Type 0
  Made (ok pending) heap = ⊥
  Made (ok (ready s)) heap = (s.base.header ≡ address) × (heap address ≡ Task.new)
  Made (err e) heap = heap address ≡ before
  Made panic heap = heap address ≡ before

module _ {W : Type 0} (api : Winsock W) (address : ℕ) where
  wrapped-Wraps :
      (raw size : ℕ) (s : Shared W) (r : Call × W)
      → let (x, s') = wrapped api raw address size s r in Wraps address (s.heap address) x s'.heap
  unfolding wrapped Base.new
  wrapped-Wraps raw size s (success info, w) = (refl, ground arith)
  wrapped-Wraps raw size s (failure e, w) = refl

  wrap-Wraps :
      (raw : ℕ) (c : SocketCtx W)
      → let (x, c') = wrap api address raw c in Wraps address (heap_of c address) x (heap_of c')
  unfolding wrap new
  wrap-Wraps raw c =
      wrapped-Wraps raw c.ctx.handle.pool.max_buffer_size c.ctx.shared
        (api.wsa_duplicate_socket raw c.ctx.shared.world)

  released-Wraps :
      (r : Outcome ℕ) (c : SocketCtx W)
      → let (x, c') = continue r (wrap api address) c in
        Wraps address (heap_of c address) x (heap_of c')
  released-Wraps (ok raw) c = wrap-Wraps raw c
  released-Wraps (err e) c = refl
  released-Wraps panic c = refl

  collect-Wraps :
      (r : OverlappedResult) (c : SocketCtx W)
      → let (x, c') = collect api address r c in Wraps address (heap_of c address) x (heap_of c')
  unfolding collect ◌>>=◌ on_sockets
  collect-Wraps r c =
      let (x, p) = SocketPool.release c.sockets in released-Wraps x (record c { sockets = p })

  ready-Made :
      (before : Header) (r : Outcome Socket) (c : SocketCtx W)
      → Wraps address before r (heap_of c)
      → let (x, c') = continue r (λ s. return (ready s)) c in Made address before x (heap_of c')
  unfolding return
  ready-Made before (ok s) c h = h
  ready-Made before (err e) c h = h
  ready-Made before panic c h = h

  result-Made :
      (r : Outcome OverlappedResult) (c : SocketCtx W)
      → let (x, c') = continue r (λ r. collect api address r >>= λ s. return (ready s)) c in
        Made address (heap_of c address) x (heap_of c')
  unfolding ◌>>=◌
  result-Made (ok r) c =
      let (x, c') = collect api address r c in
      ready-Made (heap_of c address) x c' (collect-Wraps r c)
  result-Made (err e) c = refl
  result-Made panic c = refl

  pub finish_accept-Made :
      (os : Os W) (m : Memory) (c : SocketCtx W)
      → let (x, c') = finish_accept os api m address c in
        Made address (heap_of c address) x (heap_of c')
  unfolding finish_accept ◌>>=◌ on_ctx handle_result
  finish_accept-Made os m c =
      let (x, b) = handle_result os c.ctx in result-Made x (record c { ctx = b })
