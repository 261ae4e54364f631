-- ===== src/System/Connections.antt =====
-- A new socket keeps the books, as a new handle does.
use aiocp.Prelude.{ℕ, ◌≡◌, ◌≢◌, refl, sym, ap, ◌∙◌, true, false, List, inl, inr, Bool-cases, leb}
use aiocp.Io.{Outcome, ok, err, panic}
use aiocp.Pool.SocketPool.{Winsock, SocketPool}
use aiocp.Os.{Os, Call, success, failure}
use aiocp.Kernel.{IsKernel, IsWinsock}
use aiocp.Port.{reserved_ports}
use aiocp.Shared.{Shared, with_world}
use aiocp.Handle as Base
use aiocp.Handle.Register.{RegisterOptions}
use aiocp.Socket.{Socket, duplicate, new, wrapped}
use aiocp.Socket.Register.{register_socket, registered}
use aiocp.System.{System, socket_of, adopt_socket, IsFree}
use aiocp.System.Invariant.{Books, Kept}
use aiocp.System.Creation.{Created, adopt-Kept}

module _ {W : Type 0} (owed : W → List ℕ) where
  -- The pools of sockets are not in the books.
  pub Books-sockets :
      (s : System W) (f : ℕ → SocketPool) → Books owed s → Books owed (record s { sockets = f })
  Books-sockets s f v = record { held = v.held; distinct = v.distinct; known = v.known }

  adopt_socket-Kept :
      (s : System W) (i address : ℕ) (socket : Socket) (s' : Shared W)
      → IsFree owed s i address
      → Created owed address s.shared socket.base s'
      → Kept owed s (adopt_socket s i socket s')
  adopt_socket-Kept s i address socket s' free c =
      let kept = adopt-Kept owed s i address socket.base s' free c in
      record { port = kept.port; owes = kept.owes; books = λ v. Books-sockets _ _ (kept.books v) }

  pub socket_duplicated-Kept :
      (s : System W) (i j address : ℕ)
      → IsFree owed s j address
      → Kept owed s (
          adopt_socket s j
            (duplicate address (socket_of s i)).0
            (duplicate address (socket_of s i)).1)
  unfolding duplicate Base.new
  socket_duplicated-Kept s i j address free =
      adopt_socket-Kept s j address _ _ free
        (record { header = refl; heap = λ b. refl; port = refl; owes = refl })

module _ {W : Type 0} (os : Os W) (api : Winsock W) (owed : W → List ℕ) (k : IsKernel os owed)
    (kw : IsWinsock api owed) where
  abbrev header_of : Outcome Socket → ℕ
  header_of (ok s) = s.base.header
  header_of (err e) = 0
  header_of panic = 0

  wrapped-Created :
      (raw address size : ℕ) (socket : Socket) (s : Shared W) (r : Call × W)
      → owed r.1 ≡ owed s.world
      → (wrapped api raw address size s r).0 ≡ ok socket
      → Created owed address s socket.base (wrapped api raw address size s r).1
  unfolding wrapped Base.new
  wrapped-Created raw address size socket s (success _, w) keeps e = record {
    header = sym (ap header_of e);
    heap = λ b. refl;
    port = refl;
    owes = keeps;
  }
  wrapped-Created raw address size socket s (failure x, w) keeps e = cc

  registered-Created :
      (raw address size : ℕ) (socket : Socket) (s : Shared W) (r : Call × W)
      → owed r.1 ≡ owed s.world
      → (registered os api raw address size s r).0 ≡ ok socket
      → Created owed address s socket.base (registered os api raw address size s r).1
  unfolding registered new
  registered-Created raw address size socket s (success _, w) keeps e =
      let c =
        wrapped-Created raw address size socket (with_world w s) (api.wsa_duplicate_socket raw w)
          (kw.wsa_duplicate_socket_keeps raw w) e in
      record { header = c.header; heap = c.heap; port = c.port; owes = c.owes ∙ keeps }
  registered-Created raw address size socket s (failure x, w) keeps e = cc

  register_socket-refused :
      (raw address : ℕ) (o : RegisterOptions) (socket : Socket) (s : Shared W)
      → leb reserved_ports o.key ≡ true
      → (register_socket os api raw address o s).0 ≢ ok socket
  unfolding register_socket
  register_socket-refused raw address o socket s r e = cc

  register_socket-registered :
      (raw address : ℕ) (o : RegisterOptions) (s : Shared W)
      → leb reserved_ports o.key ≡ false
      → register_socket os api raw address o s
        ≡ registered os api raw address o.max_buffer_size s
            (os.create_io_completion_port raw s.port.raw o.key 0 s.world)
  unfolding register_socket
  register_socket-registered raw address o s r = rw r refl

  register_socket-Created :
      (raw address : ℕ) (o : RegisterOptions) (socket : Socket) (s : Shared W)
      → (register_socket os api raw address o s).0 ≡ ok socket
      → Created owed address s socket.base (register_socket os api raw address o s).1
  register_socket-Created raw address o socket s e = elim (Bool-cases (leb reserved_ports o.key)) [
    | inl reserved ↦ absurd (register_socket-refused raw address o socket s reserved e)
    | inr ordinary ↦
        let path = register_socket-registered raw address o s ordinary in
        rw path (
          registered-Created raw address o.max_buffer_size socket s _
            (k.create_io_completion_port_keeps raw s.port.raw o.key 0 s.world)
            (sym (ap (λ x. x.0) path) ∙ e))
  ]

  pub socket_registered-Kept :
      (s : System W) (i raw address : ℕ) (o : RegisterOptions) (socket : Socket)
      → IsFree owed s i address
      → (register_socket os api raw address o s.shared).0 ≡ ok socket
      → Kept owed s (adopt_socket s i socket (register_socket os api raw address o s.shared).1)
  socket_registered-Kept s i raw address o socket free e =
      adopt_socket-Kept owed s i address socket _ free
        (register_socket-Created raw address o socket s.shared e)
