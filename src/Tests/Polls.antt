-- ===== src/Tests/Polls.antt =====
-- Tests of the polls of a handle, on an open, a busy and a completed header.
use aiocp.Prelude.{some, ℕ, ◌+◌, ◌^◌, ◌≡◌, ◌⊎◌, refl, false, List, [], ◌∷◌, arith}
use aiocp.Prelude.Int.{ℤ, pos, negsuc}
use aiocp.Io.{in_progress, ok, err, pending, shutting_down}
use aiocp.Os.{Dequeued}
use aiocp.Task.{Header}
use aiocp.Pool.BufferPool
use aiocp.Handle.{Ctx, own_header}
use aiocp.Handle.Guard.{cursor, advance}
use aiocp.Handle.Operation.{Operation, read, read_code, code}
use aiocp.Handle.Poll.{running, poll, poll_read}
use aiocp.Handle.Balance.{Moved, Keeping, guard_of, poll-Keeping}
use aiocp.Handle.Cursor.{IsCursor, advance-cursor}
use aiocp.Handle.Answers.{Cancelled, Frees, poll-refused, poll-Frees}
use aiocp.Tests.System.{system, zeros, zeros_lem}
use aiocp.Handle.Reading.{ReadOut, poll_read-ReadOut}
use aiocp.Pool.BufferPool.{Buffer}
use aiocp.Background.{dispatch}
use aiocp.Background.Life.{Returned, poll-Returned}
use aiocp.Port.{CompletionStatus, completed, aborted, poll_status}
use aiocp.Background.Waking.{Settled, poll-dispatch-Woken}
use aiocp.Handle.Kinds.{kind, lock-Kind}
use aiocp.Task.Lock.{phase, completed as is_completed}
use aiocp.Handle.Guard.{lock}

abbrev header_of : ℤ → Header
header_of lock = record { lock = lock; offset = 3; offset_high = 1; strong = 1 }

-- A handle whose header, at address 7, has that lock, on a port with that counter.
abbrev pub ctx : ℤ → ℕ → Ctx (List Dequeued)
ctx lock counter = record {
  shared = record {
    world = [];
    port = record { raw = 1; pending = counter };
    heap = λ a. header_of lock;
  };
  handle = record { raw = 4; header = 7; pool = BufferPool.new 4096 };
}

abbrev reading : Operation
reading = read (0 ∷ 0 ∷ 0 ∷ [])

poll-Keeping_example :
    let (r, _, c') = poll system zeros false 5 (running reading) (ctx (pos 0) 0) in
    Keeping
      (guard_of system zeros false 5 (running reading) (ctx (pos 0) 0))
      (ctx (pos 0) 0)
      (r, c')
poll-Keeping_example =
    poll-Keeping system zeros false 5 (running reading) (ctx (pos 0) 0) (omega arith)

poll-refused_example :
    poll system zeros false 5 (running reading) (ctx (pos 0) (2 ^ 63))
    ≡ (err shutting_down, running reading, ctx (pos 0) (2 ^ 63))
poll-refused_example =
    poll-refused system zeros false 5 reading (ctx (pos 0) (2 ^ 63)) (omega arith) (omega arith)

poll-Frees_example :
    let (r, _, c') = poll system zeros false 5 (running reading) (ctx (negsuc read_code) 0) in
    Frees (r, c')
poll-Frees_example =
    poll-Frees system zeros false 5 reading (ctx (negsuc read_code) 0) (omega arith)

abbrev start : Ctx (List Dequeued)
start = ctx (pos 0) 0

advance-cursor_example :
    ((advance 10 start).0 ≡ ok tt)
    × (cursor (own_header (advance 10 start).1) ≡ cursor (own_header start) + 10)
    × IsCursor (own_header (advance 10 start).1)
    × ((own_header (advance 10 start).1).lock ≡ pos 0)
    × ((own_header (advance 10 start).1).strong ≡ 1)
advance-cursor_example = advance-cursor 10 start (omega arith)

-- The packet of the read of a handle whose header is at address 7.
abbrev arrived : CompletionStatus
arrived = record { header = some 7; completion_key = 0; bytes_transferred = 3; outcome = completed }

poll-Returned_example :
    let (r, _, c') = poll system zeros false 5 (running reading) start in
    Moved 0 0 start c'
    ⊎ Returned start (dispatch system 1 arrived (poll_status system arrived c'.shared).1)
poll-Returned_example =
    poll-Returned system zeros false 5 1 (running reading) arrived start (omega arith) refl
      (omega arith)

abbrev three : Buffer
three = record { len = 0; memory = 7 ∷ 8 ∷ 9 ∷ 0 ∷ [] }

-- The read has completed, and its three bytes are in the buffer that was lent.
abbrev pub full : Ctx (List Dequeued)
full = record {
  shared = (ctx (negsuc read_code) 0).shared;
  handle = record {
    raw = 4;
    header = 7;
    pool = record { buffers = three ∷ []; taken = 1; released = 0; max_buffer_size = 4096 };
  };
}

poll_read-ReadOut_example :
    ReadOut (7 ∷ 8 ∷ 9 ∷ []) full (poll_read system zeros false 5 (0 ∷ 0 ∷ 0 ∷ 0 ∷ []) full)
poll_read-ReadOut_example =
    poll_read-ReadOut system zeros false 5 3 (0 ∷ 0 ∷ 0 ∷ 0 ∷ []) three full zeros_lem (omega arith)
      refl (omega arith) refl (omega arith) (omega arith) (omega arith) refl

abbrev flying : Ctx (List Dequeued)
flying = ctx (pos (read_code + 1)) 1

abbrev cut_off : CompletionStatus
cut_off = record arrived { outcome = aborted }

poll-dispatch-Woken_example :
    let (r, _, c') = poll system zeros false 5 (running reading) flying in
    (r ≡ ok pending)
    × Cancelled system zeros 5 flying c'
    × Settled system aborted 7 read_code c'.shared.world
        (dispatch system 1 cut_off (poll_status system cut_off c'.shared).1)
poll-dispatch-Woken_example =
    poll-dispatch-Woken system zeros false 5 1 reading read_code cut_off flying (omega arith) refl
      refl (omega arith)

collects : (lock system false (code reading) 5 (ctx (negsuc read_code) 0)).0 ≡ ok (some in_progress)
unfolding aiocp.Handle.◌>>=◌ lock aiocp.Handle.Guard.take_permit aiocp.Handle.Guard.lock_header
    aiocp.Handle.Guard.locked aiocp.Handle.Guard.register_by_ref code aiocp.Handle.modify
    aiocp.Handle.pure aiocp.Port.permit aiocp.Task.header_lock
collects = refl

lock-Kind_example :
    (phase (own_header (ctx (negsuc read_code) 0)) ≡ is_completed (code reading))
    × (phase (own_header (ctx (negsuc read_code) 0)) ≡ is_completed (code (read []))
        → kind reading ≡ kind (read []))
lock-Kind_example = lock-Kind system false 5 reading (read []) (ctx (negsuc read_code) 0) collects
