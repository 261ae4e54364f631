-- ===== src/Pool/SocketPool/Lent.antt =====
-- Pools of sockets with nothing released: taking a socket, and releasing the first one.
use aiocp.Prelude.{
  ℕ, ◌≤◌, ◌<◌, ◌≡◌, ◌≢◌, refl, ap, ◌∙◌, [], ◌∷◌, ◌++◌, length, get_elem?, leb, leb→le, leb→lt, some,
  arith, Bool-cases, inl, inr, get_elem?_total, get_elem?-append_last, length-append,
}
use aiocp.Io.{Outcome, ok, err, panic, os_error, error_io_pending}
use aiocp.Os.{Call, success, failure}
use aiocp.Pool.SocketPool.{
  SocketPool, Winsock, next_socket, pushed, count_taken, take_socket, release,
}
use aiocp.Pool.SocketPool.Reuse.{IsValid}
use aiocp.Pool.SocketPool.Debts.{os_number}

-- Nothing is released, and the taken sockets are in the list.
pub record IsIdle (p : SocketPool) : Type 0 where
  pub unreleased : p.released ≡ 0
  pub in_list : p.taken ≤ length p.sockets

-- And there is a taken one.
pub record IsLent (p : SocketPool) : Type 0 where
  pub unreleased : p.released ≡ 0
  pub in_list : p.taken ≤ length p.sockets
  pub some_taken : 1 ≤ p.taken

pub IsLent-IsIdle : (p : SocketPool) → IsLent p → IsIdle p
IsLent-IsIdle p h = record { unreleased = h.unreleased; in_list = h.in_list }

pub IsIdle-IsValid : (p : SocketPool) → IsIdle p → IsValid p
IsIdle-IsValid p h = record { in_order = omega (arith, h.unreleased); in_list = h.in_list }

-- How a take ends on an idle pool.
abbrev pub Taken : {W : Type 0} → Outcome ℕ × SocketPool × W → Type 0
Taken (ok s, p, w) = IsLent p
Taken (err e, p, w) = IsIdle p × (e ≢ os_error error_io_pending)
Taken (panic, p, w) = ⊥

count_taken-IsLent :
    (p : SocketPool) (s : ℕ)
    → p.released ≡ 0
    → p.taken < length p.sockets
    → get_elem? p.sockets p.taken ≡ some s
    → let (r, p') = count_taken p in (r ≡ ok s) × IsLent p'
unfolding count_taken next_socket
count_taken-IsLent p s z h e =
    rw e (refl, record { unreleased = z; in_list = omega arith; some_taken = omega arith })

module _ {W : Type 0} where
  lent-Taken :
      (r : Outcome ℕ) (p : SocketPool) (s : ℕ) (w : W) → r ≡ ok s → IsLent p → Taken (r, p, w)
  lent-Taken r p s w e h = rw e h

-- `WSASocketW` is no overlapped call, and does not report `ERROR_IO_PENDING`.
pub record SocketErrors {W : Type 0} (api : Winsock W) : Type 0 where
  pub not_pending :
      (info e : ℕ) (w : W) → (api.wsa_socket info w).0 ≡ failure e → e ≢ error_io_pending

module _ {W : Type 0} (api : Winsock W) (answers : SocketErrors api) where
  pushed-Taken :
      (p : SocketPool) (r : Call × W)
      → IsIdle p
      → length p.sockets ≤ p.taken
      → ((e : ℕ) → r.0 ≡ failure e → e ≢ error_io_pending)
      → Taken (pushed api p r)
  unfolding pushed
  pushed-Taken p (success s, w) h full a =
      let p' = record p { sockets = p.sockets ++ s ∷ [] } in
      let last : p.taken ≡ length p.sockets = omega (arith, h.in_list) in
      let c =
        count_taken-IsLent p' s h.unreleased (omega (arith, length-append p.sockets (s ∷ []), last))
          (ap (get_elem? p'.sockets) last ∙ get_elem?-append_last p.sockets s) in
      lent-Taken (count_taken p').0 (count_taken p').1 s w c.0 c.1
  pushed-Taken p (failure e, w) h full a = (h, λ q. a e refl (os_number q))

  pub take_socket-Taken : (p : SocketPool) (w : W) → IsIdle p → Taken (take_socket api p w)
  unfolding take_socket
  take_socket-Taken p w h = elim (Bool-cases (leb (length p.sockets) p.taken)) [
    | inl e ↦ rw e (
        pushed-Taken p (api.wsa_socket p.info w) h (leb→le _ _ e)
          (λ x. answers.not_pending p.info x w))
    | inr e ↦
        let (s, q) = get_elem?_total p.sockets p.taken (leb→lt _ _ e) in
        let c = count_taken-IsLent p s h.unreleased (leb→lt _ _ e) q in
        rw e (lent-Taken (count_taken p).0 (count_taken p).1 s w c.0 c.1)
  ]

-- The first taken socket can be released.
pub release-IsLent :
    (p : SocketPool) → IsLent p → let (r, p') = release p in (s : ℕ) × (r ≡ ok s) × IsValid p'
unfolding release next_socket
release-IsLent p h =
    let (s, q) =
      get_elem?_total p.sockets p.released (omega (arith, h.unreleased, h.in_list, h.some_taken)) in
    rw q (
      s,
      refl,
      record { in_order = omega (arith, h.unreleased, h.some_taken); in_list = h.in_list },
    )
