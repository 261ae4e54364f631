-- ===== src/Socket/Reuse.antt =====
-- The second poll of an accept: the socket that it gives to the caller, and the list that it keeps.
use aiocp.Prelude.{ℕ, ◌^◌, ◌≤◌, ◌<◌, ◌≡◌, refl, ap, ◌∙◌, false, List, ◌∷◌, length, arith}
use aiocp.Prelude.Int.{pos, negsuc}
use aiocp.Io.{Outcome, ok, err, panic, Poll, ready}
use aiocp.Os.{Os, Memory, success}
use aiocp.Task.{unlock_to_open}
use aiocp.Pool.SocketPool
use aiocp.Pool.SocketPool.{Winsock, SocketPool, take_socket, release}
use aiocp.Handle.{own_header}
use aiocp.Pool.SocketPool.Reuse.{IsValid, release-first, clear_lem}
use aiocp.Handle.Guard.{handle_result, return_permit}
use aiocp.Socket.Defs.{Socket, SocketCtx, ◌>>=◌, return, on_ctx, on_sockets, new}
use aiocp.Socket.Guard.{cleared, dropped, drop_guard, close}
use aiocp.Socket.Accept.{accept_code, collect, wrap}
use aiocp.Socket.Poll.{State, running, complete, after, finish_accept, poll}
use aiocp.Socket.Entry.{inside, poll_accept-completed}

module _ {W : Type 0} (os : Os W) (api : Winsock W) (m : Memory) where
  -- A guard is dropped on a valid pool of sockets.
  pub record DroppedGuard (c : SocketCtx W) (r : Outcome (Unit {0}) × SocketCtx W) : Type 0 where
    pub result : r.0 ≡ ok tt
    pub sockets : r.1.sockets ≡ record c.sockets { taken = 0; released = 0 }
    pub lock : (own_header r.1.ctx).lock ≡ pos 0

  pub drop_guard_lem : (c : SocketCtx W) → IsValid c.sockets → DroppedGuard c (drop_guard api c)
  unfolding drop_guard cleared unlock_to_open return_permit
  drop_guard_lem c v =
      rw (clear_lem api c.sockets c.ctx.shared.world v)
        (record { result = refl; sockets = refl; lock = ground arith })

  -- What the calls of the second poll answer.
  pub record Answers (first waker n info : ℕ) (c : SocketCtx W) : Type 0 where
    pub finished :
        (os.get_overlapped_result c.ctx.handle.raw c.ctx.handle.header
          (os.register_waker c.ctx.handle.header waker c.ctx.shared.world)).0
        ≡ success n
    pub duplicated :
        (api.wsa_duplicate_socket first
          (os.get_overlapped_result c.ctx.handle.raw c.ctx.handle.header
            (os.register_waker c.ctx.handle.header waker c.ctx.shared.world)).1).0
        ≡ success info

  -- The accepted connection, and what is left behind.
  pub record Accepted (first address info : ℕ) (c : SocketCtx W)
      (r : Outcome (Poll Socket) × State × SocketCtx W) : Type 0 where
    pub socket : Socket
    pub result : r.0 ≡ ok (ready socket)
    pub raw : socket.base.raw ≡ first
    pub header : socket.base.header ≡ address
    pub pool : socket.sockets ≡ SocketPool.new info
    pub state : r.1 ≡ complete
    pub sockets : r.2.sockets ≡ record c.sockets { taken = 0; released = 0 }
    pub lock : (own_header r.2.ctx).lock ≡ pos 0

  record Collected (first address info : ℕ) (c : SocketCtx W)
      (r : Outcome (Poll Socket) × SocketCtx W) : Type 0 where
    socket : Socket
    result : r.0 ≡ ok (ready socket)
    raw : socket.base.raw ≡ first
    header : socket.base.header ≡ address
    pool : socket.sockets ≡ SocketPool.new info
    sockets : r.1.sockets ≡ record c.sockets { released = 1 }

  finish_accept-Collected :
      (waker address first n info : ℕ) (others : List ℕ) (c : SocketCtx W)
      → c.sockets.sockets ≡ first ∷ others
      → c.sockets.released ≡ 0
      → Answers first waker n info c
      → Collected first address info c (finish_accept os api m address (inside os api m waker c))
  unfolding finish_accept ◌>>=◌ on_ctx on_sockets return collect wrap new handle_result
  finish_accept-Collected waker address first n info others c list none_released a =
      rw (a.finished, release-first api c.sockets first others list none_released)
        (rw a.duplicated (record {
          socket = _;
          result = refl;
          raw = refl;
          header = refl;
          pool = refl;
          sockets = refl;
        }))

  pub dropped-ok :
      (r : Outcome (Poll Socket)) (d : Outcome (Unit {0}) × SocketCtx W)
      → d.0 ≡ ok tt
      → dropped os r d ≡ (r, d.1)
  unfolding dropped
  dropped-ok r (ok _, c) e = refl
  dropped-ok r (err x, c) e = cc
  dropped-ok r (panic, c) e = cc

  close-Accepted :
      (first address info : ℕ) (c : SocketCtx W) (r : Outcome (Poll Socket) × SocketCtx W)
      → c.sockets.taken ≡ 1
      → 1 ≤ length c.sockets.sockets
      → Collected first address info c r
      → Accepted first address info c (after (close os api r))
  unfolding close after
  close-Accepted first address info c (r, b) one room k =
      let d =
        drop_guard_lem b
          (rw k.sockets (record { in_order = omega arith; in_list = omega arith })) in
      rw k.result (
        rw (dropped-ok (ok (ready k.socket)) (drop_guard api b) d.result) (record {
          socket = k.socket;
          result = refl;
          raw = k.raw;
          header = k.header;
          pool = k.pool;
          state = refl;
          sockets =
              d.sockets ∙ ap {A = SocketPool} (λ p. record p { taken = 0; released = 0 }) k.sockets;
          lock = d.lock;
        }))

  -- On a completed accept whose calls succeed, the poll returns the socket that the accept was
  -- submitted with. The lock is open afterwards, and the list of sockets is unchanged, with that
  -- socket still the first.
  pub poll-Accepted :
      (waker address first n info : ℕ) (others : List ℕ) (c : SocketCtx W)
      → c.ctx.shared.port.pending < 2 ^ 63
      → (own_header c.ctx).lock ≡ negsuc accept_code
      → c.sockets.sockets ≡ first ∷ others
      → c.sockets.taken ≡ 1
      → c.sockets.released ≡ 0
      → Answers first waker n info c
      → Accepted first address info c (poll os api m false waker address running c)
  unfolding poll
  poll-Accepted waker address first n info others c small done list one none_released a =
      rw (poll_accept-completed os api m false waker address c small done) (
        close-Accepted first address info c _ one (rw list (omega arith))
          (finish_accept-Collected waker address first n info others c list none_released a))
