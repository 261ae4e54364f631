-- ===== src/System/Closing/Refused.antt =====
-- While the port shuts down, a poll changes nothing.
use aiocp.Prelude.{ℕ, ◌^◌, ◌<◌, ◌≤◌, ◌≡◌, refl, ap, ◌∙◌, Bool, List, arith}
use mathlib.Core.Path.{fun_ext}
use aiocp.Pool.SocketPool.{Winsock}
use aiocp.Os.{Os, Memory}
use aiocp.Handle.{Ctx}
use aiocp.Handle.Poll.{State, running, complete, poll}
use aiocp.Handle.Answers.{poll-refused, poll_read_write-refused}
use aiocp.Socket.{SocketCtx}
use aiocp.Socket.Poll as Accepting
use aiocp.Socket.Answers as Answers
use aiocp.System.{
  System, ctx_of, put_ctx, assign, socket_of, put_sockets, put_socket, accepted, accept_on,
  PollStep, polled, read_polled, write_polled, accept_polled,
}

assign_same : {A : Type 0} (f : ℕ → A) (i : ℕ) → assign f i (f i) ≡ f
assign_same f i = fun_ext (λ j. ground arith)

module _ {W : Type 0} where
  -- The sign bit of the counter is on.
  pub record IsDown (s : System W) : Type 0 where
    pub negative : 2 ^ 63 ≤ s.shared.port.pending
    pub small : s.shared.port.pending < 2 ^ 64

  put_ctx_same : (s : System W) (i : ℕ) (c : Ctx W) → c ≡ ctx_of s i → put_ctx s i c ≡ s
  put_ctx_same s i c e =
      ap (put_ctx s i) e ∙ ap (λ f. record s { handles = f }) (assign_same s.handles i)

  put_socket_same :
      (s : System W) (i : ℕ) (c : SocketCtx W) → c ≡ socket_of s i → put_socket s i c ≡ s
  put_socket_same s i c e =
      ap (put_socket s i) e
      ∙ ap (λ t. put_sockets t i (s.sockets i)) (put_ctx_same s i (ctx_of s i) refl)
      ∙ ap (λ f. record s { sockets = f }) (assign_same s.sockets i)

module _ {W : Type 0} (os : Os W) (api : Winsock W) (m : Memory) (owed : W → List ℕ) where
  poll-same :
      (spurious : Bool) (waker : ℕ) (state : State) (c : Ctx W)
      → 2 ^ 63 ≤ c.shared.port.pending
      → c.shared.port.pending < 2 ^ 64
      → (poll os m spurious waker state c).2 ≡ c
  poll-same spurious waker (running op) c n s =
      ap (λ x. x.2) (poll-refused os m spurious waker op c n s)
  poll-same spurious waker complete c n s = unfold poll in refl

  accept-same :
      (i j address : ℕ) (spurious : Bool) (waker : ℕ) (state : Accepting.State) (s : System W)
      → IsDown s
      → accept_on os api m s i j address spurious waker state ≡ s
  accept-same i j address spurious waker Accepting.running s d =
      ap (λ (r, _, c). accepted s i j r c)
        (Answers.poll-shutting_down os api m spurious waker address (socket_of s i) d.negative
          d.small)
      ∙ put_socket_same s i (socket_of s i) refl
  accept-same i j address spurious waker Accepting.complete s d =
      unfold Accepting.poll in put_socket_same s i (socket_of s i) refl

  pub PollStep-same : {s t : System W} → IsDown s → PollStep os api m owed s t → t ≡ s
  PollStep-same {s} d (polled i spurious waker state alive room) =
      put_ctx_same s i _ (poll-same spurious waker state (ctx_of s i) d.negative d.small)
  PollStep-same {s} d (read_polled i spurious waker room alive r) = put_ctx_same s i _ (
      ap (λ x. x.1)
        (poll_read_write-refused os m spurious waker room (ctx_of s i) d.negative d.small).0)
  PollStep-same {s} d (write_polled i spurious waker bytes alive r) = put_ctx_same s i _ (
      ap (λ x. x.1)
        (poll_read_write-refused os m spurious waker bytes (ctx_of s i) d.negative d.small).1)
  PollStep-same {s} d (accept_polled i j address spurious waker state alive r free) =
      accept-same i j address spurious waker state s d
