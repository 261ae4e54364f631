-- ===== src/Socket/Entry.antt =====
-- Proofs about a poll of an accept up to its guard: the branch that it takes, and what it prepares.
use aiocp.Prelude.{Bool, ℕ, ◌^◌, ◌<◌, ◌≡◌, false, List, ◌∷◌, arith, lt→ltb}
use aiocp.Prelude.Int.{pos, negsuc}
use aiocp.Io.{idle}
use aiocp.Os.{Os, Memory, MemoryLaws}
use aiocp.Task.{Header, acquired, header_lock}
use aiocp.Pool.BufferPool.{take_buffer}
use aiocp.Pool.BufferPool.Laws.{CanTake, granted, take_buffer-Took}
use aiocp.Pool.SocketPool.{Winsock}
use aiocp.Handle.{on_pool, own_header, set_pool}
use aiocp.Pool.SocketPool.Reuse.{take_socket-first}
use aiocp.Handle.Guard.{locked}
use aiocp.Handle.Locking.{entered, lock-granted}
use aiocp.Handle.Reading.{header_lock-completed}
use aiocp.Socket.Defs.{SocketCtx, ◌>>=◌, on_ctx, on_sockets_world}
use aiocp.Socket.Guard.{close, submit}
use aiocp.Socket.Accept
use aiocp.Socket.Accept.{accept_code, accept, collect, wrap}
use aiocp.Socket.Poll.{finish_accept, guarded, poll_accept}

pub header_lock-open :
    (h : Header) → h.lock ≡ pos 0 → (header_lock false accept_code h).0 ≡ acquired idle
unfolding header_lock
header_lock-open h e = ground arith

module _ {W : Type 0} (os : Os W) (api : Winsock W) (m : Memory) where
  abbrev pub inside : ℕ → SocketCtx W → SocketCtx W
  inside waker c = record c { ctx = entered os false accept_code waker c.ctx }

  pub poll_accept-open :
      (waker address : ℕ) (c : SocketCtx W)
      → c.ctx.shared.port.pending < 2 ^ 63
      → (own_header c.ctx).lock ≡ pos 0
      → poll_accept os api m false waker address c
        ≡ close os api (submit api (Accept.prepare api m) (inside waker c))
  unfolding poll_accept ◌>>=◌ on_ctx guarded locked
  poll_accept-open waker address c small e =
      rw (lock-granted os false accept_code waker c.ctx (lt→ltb _ _ small))
        (rw (header_lock-open (own_header c.ctx) e))

  pub poll_accept-completed :
      (spurious : Bool) (waker address : ℕ) (c : SocketCtx W)
      → c.ctx.shared.port.pending < 2 ^ 63
      → (own_header c.ctx).lock ≡ negsuc accept_code
      → poll_accept os api m spurious waker address c
        ≡ close os api (
            finish_accept os api m address
              (record c { ctx = entered os spurious accept_code waker c.ctx }))
  unfolding poll_accept ◌>>=◌ on_ctx guarded locked
  poll_accept-completed spurious waker address c small e =
      rw (lock-granted os spurious accept_code waker c.ctx (lt→ltb _ _ small))
        (rw (header_lock-completed spurious accept_code (own_header c.ctx) e))

  abbrev pub with_buffer : SocketCtx W → SocketCtx W
  with_buffer c = record {
    ctx = set_pool (take_buffer m 128 c.ctx.handle.pool).1 c.ctx;
    sockets = record c.sockets { taken = 1 };
  }

  pub prepare-first :
      (first : ℕ) (others : List ℕ) (c : SocketCtx W)
      → MemoryLaws m
      → c.sockets.sockets ≡ first ∷ others
      → c.sockets.taken ≡ 0
      → CanTake (granted 128 c.ctx.handle.pool) c.ctx.handle.pool
      → Accept.prepare api m c
        ≡ accept api first (granted 128 c.ctx.handle.pool) 16 16 (with_buffer c)
  unfolding Accept.prepare ◌>>=◌ on_ctx on_sockets_world on_pool
  prepare-first first others c laws e t can =
      rw (take_socket-first api c.sockets c.ctx.shared.world first others e t)
        (rw (take_buffer-Took m laws 128 c.ctx.handle.pool can).lent)
