-- ===== src/System.antt =====
-- Many handles on one port: the tasks that make, poll and drop them, the thread, and the system, one
-- step at a time in any order.
pub mod Invariant
pub mod Polls
pub mod Packets
pub mod Creation
pub mod Connections
pub mod Accepts
pub mod Others
pub mod Safety
pub mod Start
pub mod Closing
use aiocp.Prelude.{
  ℕ, ◌+◌, ◌^◌, ◌<◌, ◌≡◌, Bool, true, false, List, length, count, ◌==◌, if◌then◌else◌,
}
use aiocp.Io.{Outcome, ok, Poll, ready}
use aiocp.Os.{Os, Memory}
use aiocp.Shared.{Shared, with_world}
use aiocp.Port
use aiocp.Port.{CompletionStatus, status, release_arc}
use aiocp.Handle.{Handle, Ctx, own_header, set_header, duplicate}
use aiocp.Handle.Register.{RegisterOptions, register_handle}
use aiocp.Handle.Guard.{cancel_if_pending}
use aiocp.Handle.Poll.{State, poll, poll_read, poll_write}
use aiocp.Background.{dispatch}
use aiocp.Pool.SocketPool.{SocketPool, Winsock}
use aiocp.Socket.{Socket, SocketCtx}
use aiocp.Socket as Socket
use aiocp.Socket.Register.{register_socket}
use aiocp.Socket.Poll as Accepting

abbrev pub assign {ℓ} : {A : Type ℓ} → (ℕ → A) → ℕ → A → ℕ → A
assign f i x j = if i == j then x else f j

-- The handles are numbered, the sockets among them: a socket is a handle and a pool of sockets. One
-- that is not alive has been dropped.
pub record System (W : Type 0) : Type 0 where
  pub shared : Shared W
  pub handles : ℕ → Handle
  pub sockets : ℕ → SocketPool
  pub alive : ℕ → Bool

module _ {W : Type 0} where
  abbrev pub ctx_of : System W → ℕ → Ctx W
  ctx_of s i = record { shared = s.shared; handle = s.handles i }

  abbrev pub put_ctx : System W → ℕ → Ctx W → System W
  put_ctx s i c = record s { shared = c.shared; handles = assign s.handles i c.handle }

  -- A new handle gets the number `i`.
  abbrev pub adopt : System W → ℕ → Handle → Shared W → System W
  adopt s i h s' = record s {
    shared = s';
    handles = assign s.handles i h;
    alive = assign s.alive i true;
  }

  abbrev pub socket_of : System W → ℕ → SocketCtx W
  socket_of s i = record { ctx = ctx_of s i; sockets = s.sockets i }

  abbrev pub put_sockets : System W → ℕ → SocketPool → System W
  put_sockets s i p = record s { sockets = assign s.sockets i p }

  abbrev pub put_socket : System W → ℕ → SocketCtx W → System W
  put_socket s i c = put_sockets (put_ctx s i c.ctx) i c.sockets

  abbrev pub adopt_socket : System W → ℕ → Socket → Shared W → System W
  adopt_socket s i socket s' = put_sockets (adopt s i socket.base s') i socket.sockets

  -- After a poll of an accept by listener `i`: a connection gets the number `j`.
  abbrev pub accepted : System W → ℕ → ℕ → Outcome (Poll Socket) → SocketCtx W → System W
  accepted s i j (ok (ready socket)) c = adopt_socket (put_socket s i c) j socket c.ctx.shared
  accepted s i j _ c = put_socket s i c

module _ {W : Type 0} (os : Os W) where
  -- `drop` of a `Handle` and of a `Socket`: a pending operation is asked to cancel, then the fields are dropped, the
  -- handle's own count of its header with them.
  unfoldable pub drop_handle : System W → ℕ → System W
  unfolding cancel_if_pending
  drop_handle s i =
      let c = cancel_if_pending os (ctx_of s i) in
      record s {
        shared = (set_header (release_arc (own_header c)) c).shared;
        alive = assign s.alive i false;
      }

module _ {W : Type 0} (owed : W → List ℕ) where
  -- Room for one operation more below the sign bit of the counter.
  abbrev pub HasRoom : System W → Type 0
  HasRoom s = length (owed s.shared.world) + 1 < 2 ^ 63

  -- There is no handle of number `i`, nothing is owed for the last one, and no other handle has or
  -- had a header at `address`.
  pub record IsFree (s : System W) (i address : ℕ) : Type 0 where
    pub dead : s.alive i ≡ false
    pub settled : count (s.handles i).header (owed s.shared.world) ≡ 0
    pub fresh : (j : ℕ) → (s.handles j).header ≡ address → j ≡ i

module _ {W : Type 0} (os : Os W) (api : Winsock W) (owed : W → List ℕ) where
  -- A handle or a socket is registered, duplicated or dropped; or the system goes on by itself, completes
  -- operations and receives shutdowns, without a change to what it owes.
  pub data OtherStep (s : System W) : System W → Type 0 where
    registered :
        (i raw address : ℕ) (options : RegisterOptions) (h : Handle)
        → IsFree owed s i address
        → (register_handle os raw address options s.shared).0 ≡ ok h
        → OtherStep s (adopt s i h (register_handle os raw address options s.shared).1)
    duplicated :
        (i j address : ℕ)
        → s.alive i ≡ true
        → IsFree owed s j address
        → OtherStep s
            (adopt s j (duplicate address (ctx_of s i)).0 (duplicate address (ctx_of s i)).1)
    socket_registered :
        (i raw address : ℕ) (options : RegisterOptions) (socket : Socket)
        → IsFree owed s i address
        → (register_socket os api raw address options s.shared).0 ≡ ok socket
        → OtherStep s
            (adopt_socket s i socket (register_socket os api raw address options s.shared).1)
    socket_duplicated :
        (i j address : ℕ)
        → s.alive i ≡ true
        → IsFree owed s j address
        → OtherStep s (
            adopt_socket s j
              (Socket.duplicate address (socket_of s i)).0
              (Socket.duplicate address (socket_of s i)).1)
    dropped : (i : ℕ) → s.alive i ≡ true → OtherStep s (drop_handle os s i)
    external :
        (w : W)
        → owed w ≡ owed s.shared.world
        → OtherStep s (record s { shared = with_world w s.shared })

module _ {W : Type 0} (os : Os W) (api : Winsock W) (m : Memory) where
  -- A poll of an accept, with the number and the address for a connection.
  abbrev pub accept_on : System W → ℕ → ℕ → ℕ → Bool → ℕ → Accepting.State → System W
  accept_on s i j address spurious waker state =
      let (r, _, c) = Accepting.poll os api m spurious waker address state (socket_of s i) in
      accepted s i j r c

module _ {W : Type 0} (os : Os W) (api : Winsock W) (m : Memory) (owed : W → List ℕ) where
  -- A task polls a handle or a socket that is alive; a connection is allocated at an address that is
  -- free.
  pub data PollStep (s : System W) : System W → Type 0 where
    polled :
        (i : ℕ) (spurious : Bool) (waker : ℕ) (state : State)
        → s.alive i ≡ true
        → HasRoom owed s
        → PollStep s (put_ctx s i (poll os m spurious waker state (ctx_of s i)).2)
    read_polled :
        (i : ℕ) (spurious : Bool) (waker : ℕ) (room : List ℕ)
        → s.alive i ≡ true
        → HasRoom owed s
        → PollStep s (put_ctx s i (poll_read os m spurious waker room (ctx_of s i)).1)
    write_polled :
        (i : ℕ) (spurious : Bool) (waker : ℕ) (bytes : List ℕ)
        → s.alive i ≡ true
        → HasRoom owed s
        → PollStep s (put_ctx s i (poll_write os m spurious waker bytes (ctx_of s i)).1)
    accept_polled :
        (i j address : ℕ) (spurious : Bool) (waker : ℕ) (state : Accepting.State)
        → s.alive i ≡ true
        → HasRoom owed s
        → IsFree owed s j address
        → PollStep s (accept_on os api m s i j address spurious waker state)

  -- Such a step, or the thread deals with a packet.
  pub data Step (s : System W) : System W → Type 0 where
    polls : {t : System W} → PollStep s t → Step s t
    others : {t : System W} → OtherStep os api owed s t → Step s t
    handled :
        (rounds : ℕ) (st : CompletionStatus)
        → HasRoom owed s
        → (Port.poll os s.shared).0 ≡ ok (status st)
        → Step s (record s { shared = dispatch os rounds st (Port.poll os s.shared).1 })

  pub data Reach (s : System W) : System W → Type 0 where
    here : Reach s s
    next : {t u : System W} → Reach s t → Step t u → Reach s u
