-- ===== src/Background/Posting.antt =====
-- Packets that the program posts to the port itself, with `CompletionPort::post` and `shutdown`.
use aiocp.Prelude.{
  ℕ, ◌^◌, ◌≤◌, ◌<◌, ◌≡◌, refl, ap, ◌∙◌, none, some, List, [], ◌∷◌, ◌++◌, ◌==◌, if◌then◌else◌, arith,
}
use aiocp.Io.{ok, err, shutting_down}
use aiocp.Os.{Os, Call, success, failure, Dequeued}
use aiocp.Shared.{Shared, Port}
use aiocp.Port.{
  post, posted, drop_status, request_shutdown, poll, status_of, permit, status, shutdown,
  shutdown_port, reserved_ports,
}
use aiocp.Background.Queue.{IsQueue}
use aiocp.Background.Termination.{poll-ordinary, poll-stop}

-- The packet of a post: no bytes, and the pointer that was passed on, where 0 is null.
abbrev pub posted_packet : ℕ → ℕ → Dequeued
posted_packet key a = record {
  result = success 0;
  bytes_transferred = 0;
  completion_key = key;
  overlapped = if a == 0 then none else some a;
}

-- What the documentation says of `PostQueuedCompletionStatus`: the packet goes behind the others.
pub record TakesPosts {W : Type 0} (os : Os W) (packets : W → List Dequeued) : Type 0 where
  pub appends :
      (raw key a n : ℕ) (w : W)
      → (os.post_queued_completion_status raw key a w).0 ≡ success n
      → packets (os.post_queued_completion_status raw key a w).1
        ≡ packets w ++ posted_packet key a ∷ []

module _ {W : Type 0} (os : Os W) (packets : W → List Dequeued) (q : IsQueue os packets)
    (t : TakesPosts os packets) where
  success_of : (call : Call) → posted os call ≡ ok tt → (n : ℕ) × (call ≡ success n)
  unfolding posted
  success_of (success n) e = (n, refl)
  success_of (failure x) e = cc

  post-packets :
      (key a : ℕ) (s : Shared W)
      → (post os key a s).0 ≡ ok tt
      → (packets (post os key a s).1.world ≡ packets s.world ++ posted_packet key a ∷ [])
        × ((post os key a s).1.port ≡ s.port)
  unfolding post
  post-packets key a s e =
      let (n, sent) = success_of (os.post_queued_completion_status s.port.raw key a s.world).0 e in
      (t.appends s.port.raw key a n s.world sent, refl)

  permit-negative : (p : Port) → 2 ^ 63 ≤ p.pending → (permit p).0 ≡ err shutting_down
  unfolding permit
  permit-negative p h = ground arith

  queued :
      (key a : ℕ) (s : Shared W)
      → packets s.world ≡ []
      → (post os key a s).0 ≡ ok tt
      → packets (post os key a s).1.world ≡ posted_packet key a ∷ []
  queued key a s empty e =
      (post-packets key a s e).0 ∙ ap (λ ds. ds ++ posted_packet key a ∷ []) empty

  -- After a successful post under an ordinary key to a port with an empty queue and no operation out,
  -- the next poll returns the status of that packet, and the port then refuses a permit as if it were
  -- shutting down: the packet is counted as a completion and has had no permit.
  pub post-poll-permit :
      (key a : ℕ) (s : Shared W)
      → key < reserved_ports
      → packets s.world ≡ []
      → s.port.pending ≡ 0
      → (post os key a s).0 ≡ ok tt
      → ((poll os (post os key a s).1).0 ≡ ok (status (status_of os (posted_packet key a))))
        × ((permit (poll os (post os key a s).1).1.port).0 ≡ err shutting_down)
  post-poll-permit key a s o empty none_out e =
      let polled =
        poll-ordinary os packets q (post os key a s).1 (posted_packet key a) []
          (queued key a s empty e) o in
      let kept = (post-packets key a s e).1 in
      (
        ap (λ x. x.0) polled,
        permit-negative _
            (omega (arith, ap (λ x. x.1.port.pending) polled, ap (λ p. p.pending) kept)),
      )

  -- After a successful request to shut down a port with an empty queue whose counter is not
  -- negative, the next poll returns the shutdown with the count of pending operations, and the port
  -- then refuses a permit.
  pub request_shutdown-poll-permit :
      (s : Shared W)
      → packets s.world ≡ []
      → s.port.pending < 2 ^ 63
      → (request_shutdown os s).0 ≡ ok tt
      → ((poll os (request_shutdown os s).1).0 ≡ ok (shutdown s.port.pending))
        × ((permit (poll os (request_shutdown os s).1).1.port).0 ≡ err shutting_down)
  unfolding request_shutdown drop_status
  request_shutdown-poll-permit s empty up e =
      let stopped =
        poll-stop os packets q (post os shutdown_port 0 s).1 (posted_packet shutdown_port 0) []
          (queued shutdown_port 0 s empty e) refl in
      let kept = (post-packets shutdown_port 0 s e).1 in
      (
        ap (λ x. x.0) stopped ∙ ap (λ p. ok (shutdown p.pending)) kept,
        permit-negative _
            (omega (arith, ap (λ x. x.1.port.pending) stopped, ap (λ p. p.pending) kept)),
      )
