-- ===== src/Tests/Ports.antt =====
-- Tests of the registration of handles and of posted packets.
use aiocp.Prelude.{◌≡◌, refl, List, [], ◌∷◌, ◌++◌, arith}
use aiocp.Io.{ok, err, shutting_down}
use aiocp.Os.{Os, Dequeued, success}
use aiocp.Prelude.Int.{pos}
use aiocp.Shared.{Shared}
use aiocp.Pool.BufferPool
use aiocp.Port.{
  poll, post, posted, request_shutdown, permit, shutdown, status, status_of, fetch_sub,
}
use aiocp.Handle.Register.{RegisterOptions, register_handle, register_handle-poll}
use aiocp.Tests.System.{system, packet, packets}
use aiocp.Background.Queue.{IsQueue}
use aiocp.Background.Posting.{
  posted_packet, TakesPosts, post-poll-permit, request_shutdown-poll-permit,
}

abbrev options : RegisterOptions
options = record { key = 5; max_buffer_size = 512 }

-- A port with one operation out and its packet in the queue.
abbrev waiting : Shared (List Dequeued)
waiting = record {
  world = packet 5 7 ∷ [];
  port = record { raw = 1; pending = 1 };
  heap = λ a. record { lock = pos 9; offset = 0; offset_high = 0; strong = 2 };
}

is_registered :
    (register_handle system 4 7 options waiting).0
    ≡ ok (record { raw = 4; header = 7; pool = BufferPool.new 512 })
unfolding register_handle
is_registered = refl

register_handle-poll_example :
    ((poll system waiting).0 ≡ ok (status (status_of system (packet 5 7))))
    × ((poll system waiting).1.port ≡ fetch_sub 1 waiting.port)
register_handle-poll_example =
    register_handle-poll system 4 7 options _ waiting waiting is_registered refl

-- A port on a system that appends what is posted.
abbrev quiet : List Dequeued → Shared (List Dequeued)
quiet q = record waiting { world = q; port = record { raw = 1; pending = 0 } }

abbrev posting : Os (List Dequeued)
posting = record system {
  post_queued_completion_status = λ raw key a q. (success 0, q ++ posted_packet key a ∷ []);
}

posting-IsQueue : IsQueue posting packets
posting-IsQueue = record { oldest = λ raw w d rest e. rw e (refl, refl); wake_keeps = λ a w. refl }

posting-TakesPosts : TakesPosts posting packets
posting-TakesPosts = record { appends = λ raw key a n w e. refl }

is_posted : (post posting 5 0 (quiet [])).0 ≡ ok tt
unfolding post posted
is_posted = refl

post-poll-permit_example :
    ((poll posting (post posting 5 0 (quiet [])).1).0
      ≡ ok (status (status_of posting (posted_packet 5 0))))
    × ((permit (poll posting (post posting 5 0 (quiet [])).1).1.port).0 ≡ err shutting_down)
post-poll-permit_example =
    post-poll-permit posting packets posting-IsQueue posting-TakesPosts 5 0 (quiet []) (omega arith)
      refl refl is_posted

is_requested : (request_shutdown posting (quiet [])).0 ≡ ok tt
unfolding request_shutdown post posted
is_requested = refl

request_shutdown-poll-permit_example :
    ((poll posting (request_shutdown posting (quiet [])).1).0 ≡ ok (shutdown 0))
    × ((permit (poll posting (request_shutdown posting (quiet [])).1).1.port).0 ≡ err shutting_down)
request_shutdown-poll-permit_example =
    request_shutdown-poll-permit posting packets posting-IsQueue posting-TakesPosts (quiet []) refl
      (omega arith) is_requested
