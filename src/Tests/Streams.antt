-- ===== src/Tests/Streams.antt =====
-- Tests of the futures of a handle against its async traits.
use aiocp.Prelude.{ℕ, ◌≡◌, refl, false, List, [], ◌∷◌, arith}
use aiocp.Prelude.Int.{negsuc}
use aiocp.Handle.Operation.{read as read_operation, transferred, write_code}
use aiocp.Handle.Poll.{after, poll}
use aiocp.Handle.Futures.{read, write, poll_read, poll_write}
use aiocp.Handle.Streams.{map_ready, read_output, read-poll_read}
use aiocp.Handle.Writing.{WriteOut, write-poll_write}
use aiocp.Tests.System.{system, zeros, zeros_lem}
use aiocp.Tests.Polls.{ctx, full}

abbrev room : List ℕ
room = 0 ∷ 0 ∷ 0 ∷ 0 ∷ []

read-poll_read_example :
    poll system zeros false 5 (read room) full
    ≡ after
        (read_operation room)
        (map_ready (read_output room) (poll_read system zeros false 5 room full))
read-poll_read_example = read-poll_read system zeros zeros_lem false 5 room full

write-poll_write_example :
    (let (r, _, c') = poll system zeros false 5 (write room) (ctx (negsuc write_code) 0) in
      WriteOut (transferred 3) 0 (ctx (negsuc write_code) 0) r c')
    × (let (r, c') = poll_write system zeros false 5 room (ctx (negsuc write_code) 0) in
        WriteOut 3 3 (ctx (negsuc write_code) 0) r c')
write-poll_write_example =
    write-poll_write system zeros false 5 3 room (ctx (negsuc write_code) 0) (omega arith) refl
      (omega arith) refl
