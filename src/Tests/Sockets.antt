-- ===== src/Tests/Sockets.antt =====
-- Tests of the accept of a connection: its submission, its completion, and a poll behind one in
-- flight.
use aiocp.Prelude.{ℕ, ◌+◌, some, refl, inl, List, [], ◌∷◌, ◌≡◌, arith, false}
use aiocp.Prelude.Int.{ℤ, pos, negsuc}
use aiocp.Os.{Dequeued, success, failure}
use aiocp.Pool.SocketPool.{Winsock}
use aiocp.Socket.{SocketCtx}
use aiocp.Socket.Accept.{accept_code}
use aiocp.Socket.Poll.{running, poll}
use aiocp.Socket.Submission.{Submitted, poll-Submitted}
use aiocp.Socket.Reuse.{Accepted, poll-Accepted}
use aiocp.Io.{ok, pending}
use aiocp.Port.{CompletionStatus, aborted, poll_status}
use aiocp.Background.{dispatch}
use aiocp.Background.Waking.{Settled}
use aiocp.Handle.Answers.{Cancelled}
use aiocp.Socket.Answers.{poll_accept-dispatch-Woken}
use aiocp.Tests.System.{system, zeros, zeros_lem, packet}

abbrev winsock : Winsock (List Dequeued)
winsock = record {
  wsa_socket = λ info q. (success 9, q);
  closesocket = λ s q. q;
  wsa_duplicate_socket = λ s q. (success 77, q);
  accept_ex = λ s t b n k a q. (failure 997, packet t a ∷ q);
}

-- A listener with two sockets in its list, of which some are taken.
abbrev listener : ℤ → ℕ → SocketCtx (List Dequeued)
listener lock taken = record {
  ctx = record {
    shared = record {
      world = [];
      port = record { raw = 1; pending = 0 };
      heap = λ a. record { lock = lock; offset = 0; offset_high = 0; strong = 1 };
    };
    handle = record {
      raw = 4;
      header = 7;
      pool = record { buffers = []; taken = 0; released = 0; max_buffer_size = 4096 };
    };
  };
  sockets = record { sockets = 5 ∷ 6 ∷ []; taken = taken; released = 0; info = 1 };
}

poll-Submitted_example :
    Submitted system winsock zeros 5 3
      (listener (pos 0) 0)
      (poll system winsock zeros false 3 8 running (listener (pos 0) 0))
poll-Submitted_example =
    poll-Submitted system winsock zeros 3 8 5 (6 ∷ []) (listener (pos 0) 0) zeros_lem (omega arith)
      refl refl refl (inl refl) refl

poll-Accepted_example :
    Accepted system winsock zeros 5 8 77
      (listener (negsuc accept_code) 1)
      (poll system winsock zeros false 3 8 running (listener (negsuc accept_code) 1))
poll-Accepted_example =
    poll-Accepted system winsock zeros 3 8 5 3 77 (6 ∷ []) (listener (negsuc accept_code) 1)
      (omega arith) refl refl refl refl (record { finished = refl; duplicated = refl })

-- An accept is in flight, and its packet says that it was aborted.
abbrev flying : SocketCtx (List Dequeued)
flying = listener (pos (accept_code + 1)) 1

abbrev cut_off : CompletionStatus
cut_off = record { header = some 7; completion_key = 0; bytes_transferred = 0; outcome = aborted }

poll_accept-dispatch-Woken_example :
    let (r, _, c') = poll system winsock zeros false 5 8 running flying in
    (r ≡ ok pending)
    × Cancelled system zeros 5 flying.ctx c'.ctx
    × Settled system aborted 7 accept_code c'.ctx.shared.world
        (dispatch system 1 cut_off (poll_status system cut_off c'.ctx.shared).1)
poll_accept-dispatch-Woken_example =
    poll_accept-dispatch-Woken system winsock zeros false 5 1 8 accept_code cut_off flying
      (omega arith) refl refl (omega arith)
