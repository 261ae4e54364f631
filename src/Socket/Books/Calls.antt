-- ===== src/Socket/Books/Calls.antt =====
-- The accept of a connection: which of its calls are queued.
use aiocp.Prelude.{ℕ, ◌≡◌, ◌≢◌, refl, ap, ◌∙◌, List, arith}
use aiocp.Io.{Outcome, ok, err, panic, ready, os_error, error_io_pending, handle_io_pending}
use aiocp.Os.{Os, Memory, Call, success, failure}
use aiocp.Kernel.{IsKernel, IsWinsock, queue_call}
use aiocp.Shared.{Shared}
use aiocp.Pool.BufferPool.{take_buffer}
use aiocp.Pool.SocketPool
use aiocp.Pool.SocketPool.{Winsock, SocketPool}
use aiocp.Pool.SocketPool.Debts.{IsPlain, IsSure-IsPlain, take_socket-owes, take_socket-IsPlain}
use aiocp.Handle.{Ctx, M, on_pool}
use aiocp.Handle as Base
use aiocp.Handle.Guard.{handle_result}
use aiocp.Handle.Books.Rules.{Same, queue_result, queue_same, IsSure}
use aiocp.Handle.Books.Rules as Rules
use aiocp.Handle.Books.Calls.{take_buffer-IsSure}
use aiocp.Handle.Books.Calls as Calls
use aiocp.Socket.Defs.{
  SocketCtx, N, continue, ◌>>=◌, return, on_ctx, on_sockets, on_sockets_world, new, wrapped,
}
use aiocp.Socket.Accept
use aiocp.Socket.Accept.{accept, answered, collect, wrap}
use aiocp.Socket.Poll.{finish_accept}

module _ {W : Type 0} (owed : W → List ℕ) where
  -- The system owes what it owed.
  pub record Quiet {A : Type 0} (m : N W A) : Type 0 where
    pub at : (c : SocketCtx W) → Same owed c.ctx (m c).1.ctx

  -- The system owes one packet more for the header exactly if the caller takes the action as queued.
  pub record Queues {A : Type 0} (m : N W A) : Type 0 where
    pub books :
        (c : SocketCtx W)
        → owed (m c).1.ctx.shared.world
          ≡ queue_result (handle_io_pending (m c).0) c.ctx.handle.header (owed c.ctx.shared.world)

  Same-trans : (a b c : Ctx W) → Same owed a b → Same owed b c → Same owed a c
  Same-trans a b c h k = record { owes = k.owes ∙ h.owes; header = k.header ∙ h.header }

  continue-Same :
      {A B : Type 0} (r : Outcome A) (f : A → N W B) (b c : SocketCtx W)
      → Same owed b.ctx c.ctx
      → ((a : A) → Quiet (f a))
      → Same owed b.ctx (continue r f c).1.ctx
  continue-Same (ok a) f b c h ff = Same-trans b.ctx c.ctx (f a c).1.ctx h ((ff a).at c)
  continue-Same (err e) f b c h ff = h
  continue-Same panic f b c h ff = h

  Quiet-bind :
      {A B : Type 0} (m : N W A) (f : A → N W B)
      → Quiet m
      → ((a : A) → Quiet (f a))
      → Quiet (m >>= f)
  unfolding ◌>>=◌
  Quiet-bind m f fm ff = record { at = λ c. continue-Same (m c).0 f c (m c).1 (fm.at c) ff }

  Quiet-return : {A : Type 0} (a : A) → Quiet (return a)
  unfolding return
  Quiet-return a = record { at = λ c. record { owes = refl; header = refl } }

  Quiet-on_ctx : {A : Type 0} (m : M W A) → Rules.Quiet owed m → Quiet (on_ctx m)
  unfolding on_ctx
  Quiet-on_ctx m q = record { at = λ c. q.at c.ctx }

  Quiet-on_sockets : {A : Type 0} (f : SocketPool → Outcome A × SocketPool) → Quiet (on_sockets f)
  unfolding on_sockets
  Quiet-on_sockets f = record { at = λ c. record { owes = refl; header = refl } }

  continue-Queues :
      {A B : Type 0} (r : Outcome A) (f : A → N W B) (b c : SocketCtx W)
      → Same owed b.ctx c.ctx
      → IsPlain r
      → ((a : A) → Queues (f a))
      → owed (continue r f c).1.ctx.shared.world
        ≡ queue_result
            (handle_io_pending (continue r f c).0)
            b.ctx.handle.header
            (owed b.ctx.shared.world)
  unfolding handle_io_pending
  continue-Queues (ok a) f b c h plain ff =
      (ff a).books c
      ∙ queue_same (handle_io_pending (f a c).0) c.ctx.handle.header b.ctx.handle.header _ _
          h.header h.owes
  continue-Queues (err (os_error n)) f b c h plain ff =
      let ne : n ≢ error_io_pending = λ p. plain (ap os_error p) in ground (arith, ne, h.owes)
  continue-Queues (err e) f b c h plain ff = h.owes
  continue-Queues panic f b c h plain ff = h.owes

  -- A quiet action whose error is no `ERROR_IO_PENDING`, before one that may queue.
  Queues-bind :
      {A B : Type 0} (m : N W A) (f : A → N W B)
      → Quiet m
      → ((c : SocketCtx W) → IsPlain (m c).0)
      → ((a : A) → Queues (f a))
      → Queues (m >>= f)
  unfolding ◌>>=◌
  Queues-bind m f q plain ff = record {
    books = λ c. continue-Queues (m c).0 f c (m c).1 (q.at c) (plain c) ff;
  }

queue_answered :
    (call : Call) (a : ℕ) (o : List ℕ)
    → queue_call call a o ≡ queue_result (handle_io_pending (answered call)) a o
unfolding handle_io_pending
queue_answered (success n) a o = refl
queue_answered (failure e) a o = ground arith

module _ {W : Type 0} (api : Winsock W) (owed : W → List ℕ) (kw : IsWinsock api owed) where
  Quiet-take_socket : Quiet owed (on_sockets_world (SocketPool.take_socket api))
  unfolding on_sockets_world
  Quiet-take_socket = record {
    at = λ c. record {
      owes = take_socket-owes api owed kw c.sockets c.ctx.shared.world;
      header = refl;
    };
  }

  Queues-accept : (s n l r : ℕ) → Queues owed (accept api s n l r)
  unfolding accept
  Queues-accept s n l r = record {
    books = λ c.
        kw.accept_ex_queues c.ctx.handle.raw s n l r c.ctx.handle.header c.ctx.shared.world
        ∙ queue_answered
            (api.accept_ex c.ctx.handle.raw s n l r c.ctx.handle.header c.ctx.shared.world).0
            c.ctx.handle.header (owed c.ctx.shared.world);
  }

  pub Queues-prepare : (m : Memory) → Queues owed (Accept.prepare api m)
  unfolding Accept.prepare
  Queues-prepare m =
      Queues-bind owed (on_sockets_world (SocketPool.take_socket api)) _ Quiet-take_socket
        (λ c.
          unfold on_sockets_world in take_socket-IsPlain api owed kw c.sockets c.ctx.shared.world)
        (λ s.
          Queues-bind owed (on_ctx (on_pool (take_buffer m 128))) _
            (Quiet-on_ctx owed (on_pool (take_buffer m 128))
              (Rules.Quiet-on_pool owed (take_buffer m 128)))
            (λ c.
              unfold on_ctx on_pool in
              IsSure-IsPlain _ (take_buffer-IsSure m 128 c.ctx.handle.pool))
            (λ b. Queues-accept s b.size 16 16))

  wrapped-owes :
      (raw address size : ℕ) (s : Shared W) (r : Call × W)
      → owed (wrapped api raw address size s r).1.world ≡ owed r.1
  unfolding wrapped Base.new
  wrapped-owes raw address size s (success info, w) = refl
  wrapped-owes raw address size s (failure e, w) = refl

  Quiet-wrap : (address raw : ℕ) → Quiet owed (wrap api address raw)
  unfolding wrap new
  Quiet-wrap address raw = record {
    at = λ c. record {
      owes =
          wrapped-owes raw address c.ctx.handle.pool.max_buffer_size c.ctx.shared
            (api.wsa_duplicate_socket raw c.ctx.shared.world)
          ∙ kw.wsa_duplicate_socket_keeps raw c.ctx.shared.world;
      header = refl;
    };
  }

  -- Once an accept has completed, nothing that its poll does is queued.
  pub Quiet-finish_accept :
      (os : Os W) (m : Memory) (k : IsKernel os owed) (address : ℕ)
      → Quiet owed (finish_accept os api m address)
  unfolding finish_accept collect
  Quiet-finish_accept os m k address =
      Quiet-bind owed _ _
        (Quiet-on_ctx owed (handle_result os) (Calls.Quiet-handle_result os m owed k))
        (λ r.
          Quiet-bind owed _ _
            (Quiet-bind owed _ _ (Quiet-on_sockets owed SocketPool.release) (Quiet-wrap address))
            (λ s. Quiet-return owed (ready s)))
