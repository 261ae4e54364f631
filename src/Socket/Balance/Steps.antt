-- ===== src/Socket/Balance/Steps.antt =====
-- How each step of the poll of an accept moves the counts: the submission, and the end of the guard.
use aiocp.Prelude.{ap, ℕ, ◌+◌, ◌%◌, ◌^◌, ◌<◌, ◌≡◌, ◌≢◌, refl, ◌∙◌, ◌⊎◌, inr, some, arith}
use aiocp.Io.{
  Outcome, ok, err, panic, Poll, pending, ready, OverlappedState, idle, in_progress,
  handle_io_pending,
}
use aiocp.Os.{Os, Memory}
use aiocp.Task.{unlock_to_open}
use aiocp.Port.{drop_permit}
use aiocp.Pool.BufferPool
use aiocp.Pool.SocketPool
use aiocp.Pool.SocketPool.{Winsock, SocketPool}
use aiocp.Handle.{Ctx, own_header}
use aiocp.Handle.Guard.{return_permit, drop_overlapped}
use aiocp.Socket.Defs.{Socket, SocketCtx}
use aiocp.Socket.Guard.{prepare, cleared, dropped, drop_guard, close, forget_or_drop, submit}
use aiocp.Socket.Accept
use aiocp.Socket.Accept.{accept_code, accept, collect, wrap}
use aiocp.Socket.Poll.{finish_accept, guarded}
use aiocp.Socket.Frames.{Keeps, Frames-prepare, Frames-finish_accept}
use aiocp.Handle.{set_header, set_world, set_pool}
use aiocp.Handle.Guard.{cancel_immediate}
use aiocp.Handle.Cancel.{cancel_if_pending-either}
use aiocp.Port.{release_arc}
use aiocp.Task.{Header}
use aiocp.Shared.{with_header, with_world}
use aiocp.Socket.Guard.{discard}
use aiocp.Socket.Connection.{Made, heap_of, finish_accept-Made}
use aiocp.Prelude.{ap, inl}

-- From `c` to `c'` the port gave out `permits` more permits and the header `counts` more counts; no
-- other header was touched but that of a connection, which is at `address`.
pub record Moved {W : Type 0} (address permits counts : ℕ) (c c' : Ctx W) : Type 0 where
  pub permits_out : c'.shared.port.pending ≡ (c.shared.port.pending + permits) % 2 ^ 64
  pub counts_out : (own_header c').strong ≡ (own_header c).strong + counts
  pub port_raw : c'.shared.port.raw ≡ c.shared.port.raw
  pub raw : c'.handle.raw ≡ c.handle.raw
  pub header : c'.handle.header ≡ c.handle.header
  pub others : (b : ℕ) → b ≢ c.handle.header → b ≢ address → c'.shared.heap b ≡ c.shared.heap b

abbrev pub Ends : {W A : Type 0} → ℕ → SocketCtx W → Outcome (Poll A) × SocketCtx W → Type 0
Ends x c (ok pending, c') = Moved x 0 0 c.ctx c'.ctx ⊎ Moved x 1 1 c.ctx c'.ctx
Ends x c (ok (ready _), c') = Moved x 0 0 c.ctx c'.ctx
Ends x c (err _, c') = Moved x 0 0 c.ctx c'.ctx
Ends x c (panic, c') = Moved x 0 0 c.ctx c'.ctx

-- The answer is not that the poll is pending, and names the header of a connection rightly.
abbrev pub Finishes : ℕ → Outcome (Poll Socket) → Type 0
Finishes x (ok pending) = ⊥
Finishes x (ok (ready s)) = s.base.header ≡ x
Finishes x _ = Unit {0}

module _ {W : Type 0} (x : ℕ) where
  pub Moved-refl : (c : Ctx W) → c.shared.port.pending < 2 ^ 64 → Moved x 0 0 c c
  Moved-refl c small = record {
    permits_out = omega arith;
    counts_out = omega arith;
    port_raw = refl;
    raw = refl;
    header = refl;
    others = λ y p q. refl;
  }

  pub Moved-Keeps : (p n : ℕ) (a b c : Ctx W) → Moved x p n a b → Keeps x b c → Moved x p n a c
  Moved-Keeps p n a b c h k = record {
    permits_out = ground (arith, k.port, h.permits_out);
    counts_out = ap (λ h. h.strong) k.own ∙ h.counts_out;
    port_raw = ground (arith, k.port, h.port_raw);
    raw = k.raw ∙ h.raw;
    header = k.header ∙ h.header;
    others = λ y e f. k.others y (λ g. e (g ∙ h.header)) f ∙ h.others y e f;
  }

  pub return_permit-Moved :
      (n : ℕ) (a b : Ctx W) → Moved x 1 n a b → Moved x 0 n a (return_permit b)
  unfolding return_permit drop_permit
  return_permit-Moved n a b h = record {
    permits_out = ground (arith, h.permits_out);
    counts_out = h.counts_out;
    port_raw = h.port_raw;
    raw = h.raw;
    header = h.header;
    others = h.others;
  }

  prepare-Moved : (a b : SocketCtx W) → Moved x 1 0 a.ctx b.ctx → Moved x 1 1 a.ctx (prepare b).ctx
  unfolding prepare
  prepare-Moved a b h = record {
    permits_out = h.permits_out;
    counts_out = ground (arith, h.counts_out);
    port_raw = h.port_raw;
    raw = h.raw;
    header = h.header;
    others = λ y e f. ground (arith, h.others y e f, h.header);
  }

  drop_overlapped-Moved : (a b : Ctx W) → Moved x 1 1 a b → Moved x 1 0 a (drop_overlapped b)
  unfolding drop_overlapped
  drop_overlapped-Moved a b h = record {
    permits_out = h.permits_out;
    counts_out = ground (arith, h.counts_out);
    port_raw = h.port_raw;
    raw = h.raw;
    header = h.header;
    others = λ y e f. ground (arith, h.others y e f, h.header);
  }

  opened-Moved :
      (w : W) (a b : Ctx W)
      → Moved x 1 0 a b
      → Moved x 1 0 a (set_header (unlock_to_open (own_header (set_world w b))) (set_world w b))
  unfolding unlock_to_open
  opened-Moved w a b h = record {
    permits_out = h.permits_out;
    counts_out = ground (arith, h.counts_out);
    port_raw = h.port_raw;
    raw = h.raw;
    header = h.header;
    others = λ y e f. ground (arith, h.others y e f, h.header);
  }

  -- However the clear of the sockets ends, the permit goes back.
  cleared-Moved :
      (a : Ctx W) (b : Ctx W) (p : SocketPool) (r : Outcome (SocketPool × W))
      → Moved x 1 0 a b
      → Moved x 0 0 a (cleared b p r).1.ctx
  unfolding cleared
  cleared-Moved a b p (ok (q, w)) h = return_permit-Moved 0 a _ (opened-Moved w a b h)
  cleared-Moved a b p (err e) h = return_permit-Moved 0 a b h
  cleared-Moved a b p panic h = return_permit-Moved 0 a b h

  discarded-Moved :
      (socket : Socket) (w : W) (a : Ctx W) (c : SocketCtx W)
      → socket.base.header ≡ x
      → x ≢ a.handle.header
      → Moved x 0 0 a c.ctx
      → Moved x 0 0 a (record c.ctx {
        shared =
            with_header socket.base.header
              (release_arc (c.ctx.shared.heap socket.base.header))
              (with_world w c.ctx.shared);
      })
  discarded-Moved socket w a c at ne h = record {
    permits_out = h.permits_out;
    counts_out = ground (arith, h.counts_out, h.header, at, ne);
    port_raw = h.port_raw;
    raw = h.raw;
    header = h.header;
    others = λ y e f. ground (arith, h.others y e f, at, f);
  }

module _ {W : Type 0} (os : Os W) (api : Winsock W) (m : Memory) (x : ℕ) where
  discard-Moved :
      (socket : Socket) (a : Ctx W) (c : SocketCtx W)
      → socket.base.header ≡ x
      → x ≢ a.handle.header
      → Moved x 0 0 a c.ctx
      → Moved x 0 0 a (discard os socket c).ctx
  unfolding discard cancel_immediate
  discard-Moved socket a c at ne h =
      elim (cancel_if_pending-either os (record c.ctx { handle = socket.base })) [
        | inl e ↦ rw e (discarded-Moved x socket _ a c at ne h)
        | inr e ↦ rw e (discarded-Moved x socket c.ctx.shared.world a c at ne h)
      ]

  dropped-Ends :
      (r : Outcome (Poll Socket)) (d : Outcome (Unit {0}) × SocketCtx W) (a : SocketCtx W)
      → x ≢ a.ctx.handle.header
      → Finishes x r
      → Moved x 0 0 a.ctx d.1.ctx
      → Ends x a (dropped os r d)
  unfolding dropped
  dropped-Ends (ok pending) d a ne f h = absurd f
  dropped-Ends (ok (ready s)) (ok _, c) a ne f h = h
  dropped-Ends (ok (ready s)) (err e, c) a ne f h = discard-Moved s a.ctx c f ne h
  dropped-Ends (ok (ready s)) (panic, c) a ne f h = discard-Moved s a.ctx c f ne h
  dropped-Ends (err y) (ok _, c) a ne f h = h
  dropped-Ends (err y) (err e, c) a ne f h = h
  dropped-Ends (err y) (panic, c) a ne f h = h
  dropped-Ends panic (ok _, c) a ne f h = h
  dropped-Ends panic (err e, c) a ne f h = h
  dropped-Ends panic (panic, c) a ne f h = h

  drop_guard-Moved :
      (a b : SocketCtx W) → Moved x 1 0 a.ctx b.ctx → Moved x 0 0 a.ctx (drop_guard api b).1.ctx
  unfolding drop_guard
  drop_guard-Moved a b h =
      let b' = set_pool (BufferPool.clear b.ctx.handle.pool) b.ctx in
      cleared-Moved x a.ctx b' b.sockets (SocketPool.clear api b.sockets b'.shared.world) (record {
        permits_out = h.permits_out;
        counts_out = h.counts_out;
        port_raw = h.port_raw;
        raw = h.raw;
        header = h.header;
        others = h.others;
      })

  close-Ends :
      (r : Outcome (Poll Socket)) (a b : SocketCtx W)
      → x ≢ a.ctx.handle.header
      → Finishes x r
      → Moved x 1 0 a.ctx b.ctx
      → Ends x a (close os api (r, b))
  unfolding close
  close-Ends (ok pending) a b ne f h = absurd f
  close-Ends (ok (ready s)) a b ne f h =
      dropped-Ends (ok (ready s)) (drop_guard api b) a ne f (drop_guard-Moved a b h)
  close-Ends (err e) a b ne f h =
      dropped-Ends (err e) (drop_guard api b) a ne tt (drop_guard-Moved a b h)
  close-Ends panic a b ne f h =
      dropped-Ends panic (drop_guard api b) a ne tt (drop_guard-Moved a b h)

  pub Made-Finishes :
      (before : Header) (r : Outcome (Poll Socket)) (heap : ℕ → Header)
      → Made x before r heap
      → Finishes x r
  Made-Finishes before (ok pending) heap h = h
  Made-Finishes before (ok (ready s)) heap h = h.0
  Made-Finishes before (err e) heap h = tt
  Made-Finishes before panic heap h = tt

  forget_or_drop-Ends :
      (r : Outcome (Unit {0})) (a b : SocketCtx W)
      → x ≢ a.ctx.handle.header
      → Moved x 1 1 a.ctx b.ctx
      → Ends x a (close os api (forget_or_drop api r b))
  unfolding close forget_or_drop
  forget_or_drop-Ends (ok _) a b ne h = inr h
  forget_or_drop-Ends (err e) a b ne h =
      let b' = record b { ctx = drop_overlapped b.ctx } in
      dropped-Ends (err e) (drop_guard api b') a ne tt
        (drop_guard-Moved a b' (drop_overlapped-Moved x a.ctx b.ctx h))
  forget_or_drop-Ends panic a b ne h =
      let b' = record b { ctx = drop_overlapped b.ctx } in
      dropped-Ends panic (drop_guard api b') a ne tt
        (drop_guard-Moved a b' (drop_overlapped-Moved x a.ctx b.ctx h))

  pub guarded-Ends :
      (state : OverlappedState) (a b : SocketCtx W)
      → x ≢ a.ctx.handle.header
      → Moved x 1 0 a.ctx b.ctx
      → Ends x a (guarded os api m x (some state) b)
  unfolding guarded submit
  guarded-Ends idle a b ne h =
      let b' = prepare b in
      let k = (Frames-prepare os api m b'.ctx.handle.header x).at b' refl in
      forget_or_drop-Ends (handle_io_pending (Accept.prepare api m b').0) a
        (Accept.prepare api m b').1 ne (Moved-Keeps x 1 1 a.ctx b'.ctx _ (prepare-Moved x a b h) k)
  guarded-Ends in_progress a b ne h =
      let (r, b') = finish_accept os api m x b in
      let k =
        (Frames-finish_accept os api m b.ctx.handle.header x (λ e. ne (e ∙ h.header))).at b refl in
      close-Ends r a b' ne
        (Made-Finishes (heap_of b x) r (heap_of b') (finish_accept-Made api x os m b))
        (Moved-Keeps x 1 0 a.ctx b.ctx _ h k)
