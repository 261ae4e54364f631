-- ===== src/Socket/Balance.antt =====
-- The polls of a listener leak neither permits of the port nor counts of its header.
mod Steps
pub use Steps.{Moved, Moved-refl, Ends, Finishes, Made-Finishes}
use Steps.{Moved-Keeps, return_permit-Moved, guarded-Ends}
use aiocp.Prelude.{ℕ, ◌-◌, ◌^◌, ◌<◌, ◌≢◌, refl, inl, inr, Bool, true, false, arith, Bool-cases}
use aiocp.Io.{pending}
use aiocp.Os.{Os, Memory}
use aiocp.Task.{LockResult, acquired, busy}
use aiocp.Task.Lock.{header_lock-answer}
use aiocp.Port.{is_nonneg}
use aiocp.Pool.SocketPool.{Winsock}
use aiocp.Handle.{Ctx, own_header}
use aiocp.Handle.Guard.{locked, cancel_immediate}
use aiocp.Handle.Locking.{entered, reply, refused, lock-granted, lock-refused}
use aiocp.Socket.Defs.{SocketCtx, ◌>>=◌, on_ctx}
use aiocp.Socket.Accept.{accept_code}
use aiocp.Socket.Poll.{guarded, poll_accept}

module _ {W : Type 0} (os : Os W) (api : Winsock W) (m : Memory) where
  locked-Ends :
      (address : ℕ) (r : LockResult) (a : SocketCtx W) (b : Ctx W)
      → address ≢ a.ctx.handle.header
      → Moved address 1 0 a.ctx b
      → Ends address a ((on_ctx (λ _. locked os r b) >>= guarded os api m address) a)
  unfolding ◌>>=◌ on_ctx locked guarded cancel_immediate
  locked-Ends address (acquired state) a b ne h =
      guarded-Ends os api m address state a (record a { ctx = b }) ne h
  locked-Ends address (busy true) a b ne h = inl (
      return_permit-Moved address 0 a.ctx (cancel_immediate os b) (
        Moved-Keeps address 1 0 a.ctx b _ h
          (record { port = refl; raw = refl; header = refl; own = refl; others = λ y p q. refl })))
  locked-Ends address (busy false) a b ne h = inl (return_permit-Moved address 0 a.ctx b h)

  entered-Moved :
      (spurious : Bool) (waker address : ℕ) (c : Ctx W)
      → Moved address 1 0 c (entered os spurious accept_code waker c)
  entered-Moved spurious waker address c = record {
    permits_out = refl;
    counts_out = ground (arith, (header_lock-answer spurious accept_code (own_header c)).2);
    port_raw = refl;
    raw = refl;
    header = refl;
    others = λ y p q. ground arith;
  }

  refused-Moved :
      (address : ℕ) (c : Ctx W) → c.shared.port.pending < 2 ^ 64 → Moved address 0 0 c (refused c)
  refused-Moved address c small = record {
    permits_out = omega arith;
    counts_out = omega arith;
    port_raw = refl;
    raw = refl;
    header = refl;
    others = λ y p q. ground arith;
  }

  -- A poll of an accept keeps one permit of the port and one count of the listener's header if it has
  -- submitted the accept, and else none, also where it ends with an error or a panic. The counter is
  -- any 64-bit pattern, and the header of the connection is allocated at an address of its own.
  pub poll_accept-Ends :
      (spurious : Bool) (waker address : ℕ) (c : SocketCtx W)
      → c.ctx.shared.port.pending < 2 ^ 64
      → address ≢ c.ctx.handle.header
      → Ends address c (poll_accept os api m spurious waker address c)
  unfolding poll_accept ◌>>=◌ on_ctx
  poll_accept-Ends spurious waker address c small ne =
      elim (Bool-cases (is_nonneg c.ctx.shared.port.pending)) [
        | inl e ↦ rw (lock-granted os spurious accept_code waker c.ctx e) (
            locked-Ends address (reply spurious accept_code c.ctx) c
              (entered os spurious accept_code waker c.ctx) ne
              (entered-Moved spurious waker address c.ctx))
        | inr e ↦
            rw (lock-refused os spurious accept_code waker c.ctx e)
              (refused-Moved address c.ctx small)
      ]
