-- ===== src/Socket/Accept.antt =====
-- src/socket/operation.rs and src/socket/ext.rs: the accept of a connection.
use aiocp.Prelude.{ℕ}
use aiocp.Io.{Code, Outcome, ok, err, os_error, OverlappedResult}
use aiocp.Os.{Memory, Call, success, failure}
use aiocp.Pool.BufferPool
use aiocp.Pool.SocketPool
use aiocp.Pool.SocketPool.{Winsock}
use aiocp.Handle.{on_pool, set_world}
use aiocp.Socket.Defs.{Socket, N, ◌>>=◌, on_ctx, on_sockets, on_sockets_world, new}

-- `ACCEPT`
abbrev pub accept_code : Code
accept_code = 0x7f_ff_ff_11

abbrev pub answered : Call → Outcome (Unit {0})
answered (success _) = ok tt
answered (failure e) = err (os_error e)

module _ {W : Type 0} (api : Winsock W) where
  -- `SocketExt::accept`, with the length of the output buffer; the count that it returns is not used.
  unfoldable pub accept : ℕ → ℕ → ℕ → ℕ → N W (Unit {0})
  accept socket len local_len remote_len c =
      let (call, w) =
        api.accept_ex c.ctx.handle.raw socket len local_len remote_len c.ctx.handle.header
          c.ctx.shared.world in
      (answered call, record c { ctx = set_world w c.ctx })

  -- `Socket::new` on the shared state.
  unfoldable pub wrap : ℕ → ℕ → N W Socket
  unfolding new
  wrap address raw c =
      let (r, s) = new api raw address c.ctx.handle.pool.max_buffer_size c.ctx.shared in
      (r, record c { ctx = record c.ctx { shared = s } })

  -- `Accept::collect`, with the address of the new header.
  unfoldable pub collect : ℕ → OverlappedResult → N W Socket
  collect address r = do raw ← on_sockets SocketPool.release; wrap address raw

module _ {W : Type 0} (api : Winsock W) (m : Memory) where
  -- `Accept::prepare`
  unfoldable pub prepare : N W (Unit {0})
  prepare = do
    socket ← on_sockets_world (SocketPool.take_socket api)
    b ← on_ctx (on_pool (BufferPool.take_buffer m 128))
    accept api socket b.size 16 16
