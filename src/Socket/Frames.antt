-- ===== src/Socket/Frames.antt =====
-- What the accept of a connection leaves alone: the port, and the listener's header.
use aiocp.Prelude.{ℕ, ◌≡◌, ◌≢◌, refl, ◌∙◌, arith}
use aiocp.Io.{Outcome, ok, err, panic}
use aiocp.Os.{Os, Memory, Call, success, failure}
use aiocp.Pool.BufferPool
use aiocp.Pool.SocketPool.{Winsock, SocketPool}
use aiocp.Handle.{Ctx, own_header, on_pool}
use aiocp.Handle.Guard.{handle_result}
use aiocp.Socket.Defs.{
  SocketCtx, N, continue, ◌>>=◌, return, on_ctx, on_sockets, on_sockets_world, new, wrapped,
}
use aiocp.Socket.Accept
use aiocp.Socket.Accept.{accept_code, accept, collect, wrap}
use aiocp.Socket.Poll.{finish_accept}

-- What the body of a guard leaves alone: `address` is where the header of a connection is made.
pub record Keeps {W : Type 0} (address : ℕ) (c c' : Ctx W) : Type 0 where
  pub port : c'.shared.port ≡ c.shared.port
  pub raw : c'.handle.raw ≡ c.handle.raw
  pub header : c'.handle.header ≡ c.handle.header
  pub own : own_header c' ≡ own_header c
  pub others : (b : ℕ) → b ≢ c.handle.header → b ≢ address → c'.shared.heap b ≡ c.shared.heap b

-- On a header at this address.
pub record Frames {W A : Type 0} (at_header address : ℕ) (m : N W A) : Type 0 where
  pub at : (c : SocketCtx W) → c.ctx.handle.header ≡ at_header → Keeps address c.ctx (m c).1.ctx

module _ {W : Type 0} where
  Keeps-trans : (x : ℕ) (a b c : Ctx W) → Keeps x a b → Keeps x b c → Keeps x a c
  Keeps-trans x a b c h k = record {
    port = k.port ∙ h.port;
    raw = k.raw ∙ h.raw;
    header = k.header ∙ h.header;
    own = k.own ∙ h.own;
    others = λ y p q. k.others y (λ e. p (e ∙ h.header)) q ∙ h.others y p q;
  }

  continue-Keeps :
      {A B : Type 0} (x y : ℕ) (r : Outcome A) (f : A → N W B) (b c : SocketCtx W)
      → c.ctx.handle.header ≡ x
      → Keeps y b.ctx c.ctx
      → ((a : A) → Frames x y (f a))
      → Keeps y b.ctx (continue r f c).1.ctx
  continue-Keeps x y (ok a) f b c e h ff = Keeps-trans y b.ctx c.ctx _ h ((ff a).at c e)
  continue-Keeps x y (err z) f b c e h ff = h
  continue-Keeps x y panic f b c e h ff = h

  Frames-bind :
      {A B : Type 0} (x y : ℕ) (m : N W A) (f : A → N W B)
      → Frames x y m
      → ((a : A) → Frames x y (f a))
      → Frames x y (m >>= f)
  unfolding ◌>>=◌
  Frames-bind x y m f fm ff = record {
    at = λ c e. continue-Keeps x y (m c).0 f c (m c).1 ((fm.at c e).header ∙ e) (fm.at c e) ff;
  }

  Frames-return : {A : Type 0} (x y : ℕ) (a : A) → Frames {W = W} x y (return a)
  unfolding return
  Frames-return x y a = record {
    at = λ c e. record {
      port = refl;
      raw = refl;
      header = refl;
      own = refl;
      others = λ b p q. refl;
    };
  }

  Frames-on_sockets :
      {A : Type 0} (x y : ℕ) (f : SocketPool → Outcome A × SocketPool)
      → Frames {W = W} x y (on_sockets f)
  unfolding on_sockets
  Frames-on_sockets x y f = record {
    at = λ c e. record {
      port = refl;
      raw = refl;
      header = refl;
      own = refl;
      others = λ b p q. refl;
    };
  }

  Frames-on_sockets_world :
      {A : Type 0} (x y : ℕ) (f : SocketPool → W → Outcome A × SocketPool × W)
      → Frames x y (on_sockets_world f)
  unfolding on_sockets_world
  Frames-on_sockets_world x y f = record {
    at = λ c e. record {
      port = refl;
      raw = refl;
      header = refl;
      own = refl;
      others = λ b p q. refl;
    };
  }

  Frames-on_pool :
      {A : Type 0} (x y : ℕ) (f : BufferPool.BufferPool → Outcome A × BufferPool.BufferPool)
      → Frames {W = W} x y (on_ctx (on_pool f))
  unfolding on_ctx on_pool
  Frames-on_pool x y f = record {
    at = λ c e. record {
      port = refl;
      raw = refl;
      header = refl;
      own = refl;
      others = λ b p q. refl;
    };
  }

module _ {W : Type 0} (os : Os W) (api : Winsock W) (m : Memory) where
  Frames-handle_result : (x y : ℕ) → Frames x y (on_ctx (handle_result os))
  unfolding on_ctx handle_result
  Frames-handle_result x y = record {
    at = λ c e. record {
      port = refl;
      raw = refl;
      header = refl;
      own = refl;
      others = λ b p q. refl;
    };
  }

  Frames-accept : (x y s n l r : ℕ) → Frames x y (accept api s n l r)
  unfolding accept
  Frames-accept x y s n l r = record {
    at = λ c e. record {
      port = refl;
      raw = refl;
      header = refl;
      own = refl;
      others = λ b p q. refl;
    };
  }

  -- The header of the new socket is another one.
  wrap-Keeps :
      (address raw : ℕ) (c : SocketCtx W) (r : Call × W)
      → address ≢ c.ctx.handle.header
      → Keeps address c.ctx (record c.ctx {
        shared = (wrapped api raw address c.ctx.handle.pool.max_buffer_size c.ctx.shared r).1;
      })
  unfolding wrapped
  wrap-Keeps address raw c (success i, w) ne = record {
    port = refl;
    raw = refl;
    header = refl;
    own = ground arith;
    others = λ b p q. ground arith;
  }
  wrap-Keeps address raw c (failure e, w) ne = record {
    port = refl;
    raw = refl;
    header = refl;
    own = refl;
    others = λ b p q. refl;
  }

  Frames-wrap : (x address raw : ℕ) → address ≢ x → Frames x address (wrap api address raw)
  unfolding wrap new
  Frames-wrap x address raw ne = record {
    at = λ c e.
        wrap-Keeps address raw c (api.wsa_duplicate_socket raw c.ctx.shared.world)
          (λ p. ne (p ∙ e));
  }

  pub Frames-prepare : (x y : ℕ) → Frames x y (Accept.prepare api m)
  unfolding Accept.prepare
  Frames-prepare x y = search (Frames-bind, Frames-on_sockets_world, Frames-on_pool, Frames-accept)

  pub Frames-finish_accept :
      (x address : ℕ) → address ≢ x → Frames x address (finish_accept os api m address)
  unfolding finish_accept collect
  Frames-finish_accept x address ne =
      search (Frames-bind, Frames-on_sockets, Frames-return, Frames-handle_result, Frames-wrap)
