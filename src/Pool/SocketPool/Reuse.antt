-- ===== src/Pool/SocketPool/Reuse.antt =====
-- Proofs about the socket pool: its range, and which socket is taken after a clear.
use aiocp.Prelude.{ℕ, ◌-◌, ◌≤◌, ◌≡◌, List, ◌∷◌, length, take, drop, arith, le→leb, lt→leb}
use aiocp.Io.{ok}
use aiocp.Pool.SocketPool.{release, Winsock, SocketPool, next_socket, take_socket, clear, close_all}

-- Released sockets were taken, and taken ones are in the list.
pub record IsValid (p : SocketPool) : Type 0 where
  pub in_order : p.released ≤ p.taken
  pub in_list : p.taken ≤ length p.sockets

module _ {W : Type 0} (api : Winsock W) where
  pub clear_lem :
      (p : SocketPool) (w : W)
      → IsValid p
      → clear api p w
        ≡ ok (
          record p { taken = 0; released = 0 },
          close_all api (take (p.taken - p.released) (drop p.released p.sockets)) w,
        )
  unfolding clear
  clear_lem p w v =
      rw (le→leb p.released p.taken v.in_order, le→leb p.taken (length p.sockets) v.in_list)

  pub take_socket-first :
      (p : SocketPool) (w : W) (first : ℕ) (others : List ℕ)
      → p.sockets ≡ first ∷ others
      → p.taken ≡ 0
      → take_socket api p w ≡ (ok first, record p { taken = 1 }, w)
  unfolding take_socket next_socket
  take_socket-first p w first others e t =
      rw (e, t, lt→leb (length (first ∷ others)) 0 (omega arith))

  pub release-first :
      (p : SocketPool) (first : ℕ) (others : List ℕ)
      → p.sockets ≡ first ∷ others
      → p.released ≡ 0
      → release p ≡ (ok first, record p { released = 1 })
  unfolding release next_socket
  release-first p first others e t = rw (e, t)

  -- A clear keeps the list, so the next take does not make a socket: on a pool with a socket in its
  -- list it returns the first one, which an accept before the clear has handed out or the clear has
  -- closed, and makes no call of the system.
  pub take_socket-clear :
      (p : SocketPool) (w : W) (first : ℕ) (others : List ℕ)
      → IsValid p
      → p.sockets ≡ first ∷ others
      → (p' : SocketPool) × (w' : W) × (clear api p w ≡ ok (p', w'))
        × (take_socket api p' w' ≡ (ok first, record p' { taken = 1 }, w'))
  unfolding take_socket next_socket
  take_socket-clear p w first others v e = (
    record p { taken = 0; released = 0 },
    close_all api (take (p.taken - p.released) (drop p.released p.sockets)) w,
    clear_lem p w v,
    rw (e, lt→leb (length (first ∷ others)) 0 (omega arith)),
  )
