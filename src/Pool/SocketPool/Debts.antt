-- ===== src/Pool/SocketPool/Debts.antt =====
-- What the calls of a pool of sockets change of the debts of the system: nothing.
use aiocp.Prelude.{
  ℕ, ◌-◌, ◌≡◌, ◌≢◌, refl, ap, ◌∙◌, ◌&&◌, List, [], ◌∷◌, length, leb, take, drop, Option, none, some,
  Bool-cases, inl, inr,
}
use aiocp.Io.{IoError, Outcome, ok, err, panic, os_error, error_io_pending}
use aiocp.Os.{Call, success, failure}
use aiocp.Kernel.{IsWinsock}
use aiocp.Handle.Books.Rules.{IsSure}
use aiocp.Pool.SocketPool.{
  SocketPool, Winsock, next_socket, pushed, count_taken, take_socket, close_all, clear,
}

-- An error of its own is not that a call is pending.
abbrev pub IsPlain : {A : Type 0} → Outcome A → Type 0
IsPlain (err e) = e ≢ os_error error_io_pending
IsPlain _ = Unit {0}

abbrev number_of : IoError → ℕ → ℕ
number_of (os_error n) d = n
number_of _ d = d

pub os_number : {x y : ℕ} → os_error x ≡ os_error y → x ≡ y
os_number {x} q = ap (λ e. number_of e x) q

pub IsSure-IsPlain : {A : Type 0} (r : Outcome A) → IsSure r → IsPlain r
IsSure-IsPlain (ok a) h = tt
IsSure-IsPlain (err e) h = absurd h
IsSure-IsPlain panic h = tt

-- A clear that does not panic leaves that debt.
abbrev pub Owes : {W : Type 0} → (W → List ℕ) → List ℕ → Outcome (SocketPool × W) → Type 0
Owes owed o (ok (p, w)) = owed w ≡ o
Owes owed o _ = Unit {0}

module _ {W : Type 0} (api : Winsock W) (owed : W → List ℕ) (kw : IsWinsock api owed) where
  -- The sockets are taken without an answer that would be read as a pending call.
  next_socket-IsPlain : (p : SocketPool) (o : Option ℕ) → IsPlain (next_socket p o).0
  unfolding next_socket
  next_socket-IsPlain p none = tt
  next_socket-IsPlain p (some s) = tt

  pushed-IsPlain :
      (p : SocketPool) (r : Call × W)
      → ((e : ℕ) → r.0 ≡ failure e → e ≢ error_io_pending)
      → IsPlain (pushed api p r).0
  unfolding pushed count_taken
  pushed-IsPlain p (success s, w) h = next_socket-IsPlain _ _
  pushed-IsPlain p (failure e, w) h = λ q. h e refl (os_number q)

  pushed-owes :
      (p : SocketPool) (r : Call × W) (o : List ℕ) → owed r.1 ≡ o → owed (pushed api p r).2 ≡ o
  unfolding pushed
  pushed-owes p (success s, w) o h = h
  pushed-owes p (failure e, w) o h = h

  -- Taking a socket changes the debts no more than `WSASocketW` does.
  pub take_socket-owes : (p : SocketPool) (w : W) → owed (take_socket api p w).2 ≡ owed w
  unfolding take_socket
  take_socket-owes p w = elim (Bool-cases (leb (length p.sockets) p.taken)) [
    | inl e ↦ rw e (pushed-owes p (api.wsa_socket p.info w) (owed w) (kw.wsa_socket_keeps p.info w))
    | inr e ↦ rw e refl
  ]

  pub take_socket-IsPlain : (p : SocketPool) (w : W) → IsPlain (take_socket api p w).0
  unfolding take_socket count_taken
  take_socket-IsPlain p w = elim (Bool-cases (leb (length p.sockets) p.taken)) [
    | inl e ↦
        rw e (pushed-IsPlain p (api.wsa_socket p.info w) (λ x. kw.wsa_socket_answers p.info x w))
    | inr e ↦ rw e (next_socket-IsPlain _ _)
  ]

  close_all-owes : (ss : List ℕ) (w : W) → owed (close_all api ss w) ≡ owed w
  unfolding close_all
  close_all-owes [] w = refl
  close_all-owes (s ∷ ss) w = close_all-owes ss (api.closesocket s w) ∙ kw.closesocket_keeps s w

  pub clear-Owes : (p : SocketPool) (w : W) → Owes owed (owed w) (clear api p w)
  unfolding clear
  clear-Owes p w = elim (Bool-cases (leb p.released p.taken && leb p.taken (length p.sockets))) [
    | inl e ↦ rw e (close_all-owes (take (p.taken - p.released) (drop p.released p.sockets)) w)
    | inr e ↦ rw e tt
  ]
