-- ===== src/Pool/SocketPool.antt =====
-- src/pool/socket_pool.rs: the sockets that a listener hands to the accepts in flight.
pub mod Reuse
pub mod Debts
pub mod Lent
use aiocp.Prelude.{
  ℕ, ◌+◌, ◌-◌, Bool, ◌&&◌, Option, none, some, List, [], ◌∷◌, ◌++◌, length, get_elem?, take, drop,
  leb, if◌then◌else◌,
}
use aiocp.Io.{Outcome, ok, err, panic, os_error}
use aiocp.Os.{Call, success, failure}

-- The calls of Winsock. A socket is a number, and so is the protocol information that a new socket
-- is made from; a call that fails has the number of its error.
pub record Winsock (W : Type 0) : Type 0 where
  pub wsa_socket : ℕ → W → Call × W
  pub closesocket : ℕ → W → W
  pub wsa_duplicate_socket : ℕ → W → Call × W
  pub accept_ex : ℕ → ℕ → ℕ → ℕ → ℕ → ℕ → W → Call × W

pub record SocketPool : Type 0 where
  pub sockets : List ℕ
  pub taken : ℕ
  pub released : ℕ
  pub info : ℕ

-- `SocketPool::new`
unfoldable pub new : ℕ → SocketPool
new info = record { sockets = []; taken = 0; released = 0; info = info }

next_socket : SocketPool → Option ℕ → Outcome ℕ × SocketPool
next_socket p none = (panic, p)
next_socket p (some s) = (ok s, p)

-- `SocketPool::release`; the indexing panics out of bounds.
unfoldable pub release : SocketPool → Outcome ℕ × SocketPool
unfolding next_socket
release p = next_socket (record p { released = p.released + 1 }) (get_elem? p.sockets p.released)

-- The end of `take`: the next socket of the list is counted and returned.
count_taken : SocketPool → Outcome ℕ × SocketPool
unfolding next_socket
count_taken p = next_socket (record p { taken = p.taken + 1 }) (get_elem? p.sockets p.taken)

module _ {W : Type 0} (api : Winsock W) where
  pushed : SocketPool → Call × W → Outcome ℕ × SocketPool × W
  unfolding count_taken
  pushed p (success s, w) =
      let (r, p') = count_taken (record p { sockets = p.sockets ++ s ∷ [] }) in (r, p', w)
  pushed p (failure e, w) = (err (os_error e), p, w)

  -- `SocketPool::take`; a new socket is made if the list is used up.
  unfoldable pub take_socket : SocketPool → W → Outcome ℕ × SocketPool × W
  unfolding pushed count_taken
  take_socket p w =
      if leb (length p.sockets) p.taken
      then pushed p (api.wsa_socket p.info w)
      else (let (r, p') = count_taken p in (r, p', w))

  unfoldable pub close_all : List ℕ → W → W
  close_all [] w = w
  close_all (s ∷ ss) w = close_all ss (api.closesocket s w)

  -- `SocketPool::clear`: the sockets in `released..taken` are closed; the slice panics if that is no
  -- range of the list. The list itself is kept.
  unfoldable pub clear : SocketPool → W → Outcome (SocketPool × W)
  clear p w =
      if leb p.released p.taken && leb p.taken (length p.sockets)
      then ok (
        record p { taken = 0; released = 0 },
        close_all (take (p.taken - p.released) (drop p.released p.sockets)) w,
      )
      else panic
