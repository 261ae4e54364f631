-- ===== src/System/Start.antt =====
-- The start: a port is created, and there are no handles yet.
use aiocp.Prelude.{ℕ, ◌≡◌, refl, ap, ◌∙◌, sym, false, List, [], length, count, arith}
use aiocp.Io.{Outcome, ok}
use aiocp.Pool.SocketPool.{Winsock}
use aiocp.Os.{Os, Memory, Call, success, failure}
use aiocp.Kernel.{IsKernel, IsWinsock}
use aiocp.Task
use aiocp.Shared.{Port}
use aiocp.Pool.BufferPool
use aiocp.Pool.SocketPool
use aiocp.Handle.Register.{create, created}
use aiocp.System.{System, Reach}
use aiocp.System.Invariant.{Inv}
use aiocp.System.Safety.{Reach-Inv}

abbrev pending_of : Outcome Port → ℕ
pending_of (ok p) = p.pending
pending_of _ = 0

module _ {W : Type 0} where
  -- No handle is alive, and no header is allocated.
  abbrev pub empty : Port → W → System W
  empty p w = record {
    shared = record { world = w; port = p; heap = λ a. record Task.new { strong = 0 } };
    handles = λ i. record { raw = 0; header = i; pool = BufferPool.new 0 };
    sockets = λ i. SocketPool.new 0;
    alive = λ i. false;
  }

module _ {W : Type 0} (os : Os W) (api : Winsock W) (m : Memory) (owed : W → List ℕ)
    (k : IsKernel os owed) (kw : IsWinsock api owed) where
  created_nothing :
      (x : Call × W) (p : Port)
      → (created os x).0 ≡ ok p
      → (p.pending ≡ 0) × ((created os x).1 ≡ x.1)
  unfolding created
  created_nothing (success raw, w) p e = (ap pending_of (sym e), refl)
  created_nothing (failure x, w) p e = cc

  empty-Inv : (p : Port) (w : W) → p.pending ≡ 0 → owed w ≡ [] → Inv owed (empty p w)
  empty-Inv p w z e = record {
    counted = omega (arith, z, ap length e);
    books = record {
      held = λ i a h. omega (arith, ap (count a) e);
      distinct = λ i j h. h;
      known = λ a h. absurd (omega (arith, h, ap (count a) e));
    };
  }

  -- From the creation of a port, on a system that keeps its debts and owes nothing at first:
  -- whatever handles and sockets are registered, duplicated, polled and dropped and whatever
  -- connections are accepted, whatever the thread dequeues and the system does, in any order and
  -- with room in the counter, the counter of the port is the number of completions owed, and the
  -- count of each header is one for its handle, while that is alive, plus one for each completion
  -- owed for it.
  pub create-Inv :
      (threads : ℕ) (p : Port) (w : W) {t : System W}
      → (create os threads w).0 ≡ ok p
      → owed w ≡ []
      → Reach os api m owed (empty p (create os threads w).1) t
      → Inv owed t
  unfolding create
  create-Inv threads p w c e r =
      let x = os.create_io_completion_port os.invalid_handle_value 0 0 threads w in
      let (none_yet, left) = created_nothing x p c in
      Reach-Inv os api m owed k kw
        (empty-Inv p _ none_yet (
          ap owed left
          ∙ k.create_io_completion_port_keeps os.invalid_handle_value 0 0 threads w
          ∙ e))
        r
