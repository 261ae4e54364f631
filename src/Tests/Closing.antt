-- ===== src/Tests/Closing.antt =====
-- The end of the port of a small system, and the theorems on it applied.
use aiocp.Prelude.{false, ◌+◌, ℕ, ◌≡◌, refl, some, List, [], ◌∷◌, length, arith}
use aiocp.Io.{ok}
use aiocp.Background.{thread_body}
use aiocp.Background.Drain.{Round}
use aiocp.Handle.{Ctx}
use aiocp.Handle.Guard.{lock, with_guard}
use aiocp.Handle.Operation.{Operation, read, code, read_code}
use aiocp.Handle.Poll.{finish_operation}
use aiocp.System.Invariant.{Inv}
use aiocp.System.Safety.{Reach-Inv}
use aiocp.System.Closing.Body.{Concluded, thread_body-Concluded}
use aiocp.System.Closing.Guarded.{CloseReach-Guarded, rest_of_poll}
use aiocp.Handle.Balance.{Finishes}
use aiocp.Prelude.Int.{negsuc}
use aiocp.Io.{in_progress}
use aiocp.Port
use aiocp.Port.{CompletionStatus, shutdown, poll_during_shutdown}
use aiocp.System.{System, dropped, external, HasRoom, Reach, Step, ctx_of, put_ctx, drop_handle}
use aiocp.System.Invariant.{one_if}
use aiocp.System.Closing.{Closing, CloseReach, CloseStep, drained, consume}
use aiocp.System.Closing.Returned.{stopped, CloseReach-Returned}
use aiocp.Tests.System.{zeros}
use aiocp.Tests.Small.{
  winsock, winsock-IsWinsock, Entry, done, stop, kernel, kernel-IsKernel, owed, fresh, fresh-Inv,
  busy, busy-Reach, stop_packet, packet, packets, kernel-IsQueue, with_lock, with_lock-Inv,
}

-- The shutdown comes in before the packet of the read that handle 5 has in flight.
abbrev asked : System (List Entry)
asked = record busy {
  shared = record { world = stop ∷ done 5 ∷ []; port = busy.shared.port; heap = busy.shared.heap };
}

asked-Reach : Reach kernel winsock zeros owed (fresh []) asked
unfolding aiocp.Handle.Poll.poll aiocp.Handle.Poll.poll_operation aiocp.Handle.◌>>=◌
    aiocp.Handle.Guard.lock aiocp.Handle.Guard.take_permit aiocp.Handle.Guard.lock_header
    aiocp.Handle.Guard.locked aiocp.Handle.Guard.register_by_ref aiocp.Handle.Poll.guarded
    aiocp.Handle.Guard.with_guard aiocp.Handle.Guard.close aiocp.Handle.Guard.submit
    aiocp.Handle.Guard.forget_or_drop aiocp.Io.handle_io_pending aiocp.Handle.Operation.prepare
    aiocp.Handle.Operation.code aiocp.Handle.Ext.read_overlapped aiocp.Pool.BufferPool.take_buffer
    aiocp.Pool.BufferPool.ensure aiocp.Pool.BufferPool.grow aiocp.Pool.BufferPool.take_at
    aiocp.Pool.BufferPool.clear aiocp.Pool.BufferPool.new aiocp.Handle.Guard.prepare
    aiocp.Handle.modify aiocp.Handle.on_pool aiocp.Handle.pure aiocp.Handle.Poll.after Port.permit
    aiocp.Task.header_lock
asked-Reach = Reach.next busy-Reach (Step.others (external (stop ∷ done 5 ∷ []) refl))

room : HasRoom owed asked
room = omega arith

asked_stops : (Port.poll kernel asked.shared).0 ≡ ok (shutdown 1)
unfolding aiocp.Handle.Poll.poll aiocp.Handle.Poll.poll_operation aiocp.Handle.◌>>=◌
    aiocp.Handle.Guard.lock aiocp.Handle.Guard.take_permit aiocp.Handle.Guard.lock_header
    aiocp.Handle.Guard.locked aiocp.Handle.Guard.register_by_ref aiocp.Handle.Poll.guarded
    aiocp.Handle.Guard.with_guard aiocp.Handle.Guard.close aiocp.Handle.Guard.submit
    aiocp.Handle.Guard.forget_or_drop aiocp.Io.handle_io_pending aiocp.Handle.Operation.prepare
    aiocp.Handle.Operation.code aiocp.Handle.Ext.read_overlapped aiocp.Pool.BufferPool.take_buffer
    aiocp.Pool.BufferPool.ensure aiocp.Pool.BufferPool.grow aiocp.Pool.BufferPool.take_at
    aiocp.Pool.BufferPool.clear aiocp.Pool.BufferPool.new aiocp.Handle.Guard.prepare
    aiocp.Handle.modify aiocp.Handle.on_pool aiocp.Handle.pure aiocp.Handle.Poll.after Port.permit
    aiocp.Task.header_lock Port.poll Port.poll_status Port.get_queued_completion_status
asked_stops = refl

abbrev cut_off : CompletionStatus
cut_off = record {
  header = some 5;
  completion_key = 0;
  bytes_transferred = 0;
  outcome = Port.aborted;
}

-- Then handle 5 is dropped, which cuts its read off, and the thread consumes the completion.
abbrev closing : Closing (List Entry)
closing = stopped kernel asked 1

abbrev dropping : Closing (List Entry)
dropping = record closing { system = drop_handle kernel closing.system 5 }

abbrev closed : Closing (List Entry)
closed = record {
  system = record dropping.system {
    shared = consume kernel 0 cut_off (poll_during_shutdown kernel 1 dropping.system.shared).1;
  };
  remaining = 0;
}

finds : (poll_during_shutdown kernel 1 dropping.system.shared).0 ≡ some (ok cut_off)
unfolding drop_handle aiocp.Handle.Poll.poll aiocp.Handle.Poll.poll_operation aiocp.Handle.◌>>=◌
    aiocp.Handle.Guard.lock aiocp.Handle.Guard.take_permit aiocp.Handle.Guard.lock_header
    aiocp.Handle.Guard.locked aiocp.Handle.Guard.register_by_ref aiocp.Handle.Poll.guarded
    aiocp.Handle.Guard.with_guard aiocp.Handle.Guard.close aiocp.Handle.Guard.submit
    aiocp.Handle.Guard.forget_or_drop aiocp.Io.handle_io_pending aiocp.Handle.Operation.prepare
    aiocp.Handle.Operation.code aiocp.Handle.Ext.read_overlapped aiocp.Pool.BufferPool.take_buffer
    aiocp.Pool.BufferPool.ensure aiocp.Pool.BufferPool.grow aiocp.Pool.BufferPool.take_at
    aiocp.Pool.BufferPool.clear aiocp.Pool.BufferPool.new aiocp.Handle.Guard.prepare
    aiocp.Handle.modify aiocp.Handle.on_pool aiocp.Handle.pure aiocp.Handle.Poll.after Port.permit
    aiocp.Task.header_lock Port.poll Port.poll_status Port.get_queued_completion_status
    poll_during_shutdown Port.status_of Port.drop_status
finds = refl

closed-CloseReach : CloseReach kernel winsock zeros owed closing closed
closed-CloseReach =
    CloseReach.next (CloseReach.next CloseReach.here (CloseStep.others (dropped 5 refl)))
      (drained 1 0 cut_off (omega arith) finds)

CloseReach-Returned_example :
    (closed.remaining ≡ length (owed closed.system.shared.world))
    × (closed.remaining ≡ 0
        → (i : ℕ)
        → (closed.system.shared.heap (closed.system.handles i).header).strong
          ≡ one_if (closed.system.alive i))
CloseReach-Returned_example =
    CloseReach-Returned kernel winsock zeros owed kernel-IsKernel winsock-IsWinsock 1
      (fresh-Inv [] refl) asked-Reach room asked_stops closed-CloseReach

asked-Inv : Inv owed asked
asked-Inv =
    Reach-Inv kernel winsock zeros owed kernel-IsKernel winsock-IsWinsock (fresh-Inv [] refl)
      asked-Reach

abbrev read_packet : Round
read_packet = record { repeats = []; packet = packet (done 5) }

thread_body-Concluded_example :
    Concluded kernel winsock zeros owed kernel-IsKernel winsock-IsWinsock asked
      (thread_body kernel 0 1 asked.shared)
unfolding aiocp.Handle.Poll.poll aiocp.Handle.Poll.poll_operation aiocp.Handle.◌>>=◌
    aiocp.Handle.Guard.lock aiocp.Handle.Guard.take_permit aiocp.Handle.Guard.lock_header
    aiocp.Handle.Guard.locked aiocp.Handle.Guard.register_by_ref aiocp.Handle.Poll.guarded
    aiocp.Handle.Guard.with_guard aiocp.Handle.Guard.close aiocp.Handle.Guard.submit
    aiocp.Handle.Guard.forget_or_drop aiocp.Io.handle_io_pending aiocp.Handle.Operation.prepare
    aiocp.Handle.Operation.code aiocp.Handle.Ext.read_overlapped aiocp.Pool.BufferPool.take_buffer
    aiocp.Pool.BufferPool.ensure aiocp.Pool.BufferPool.grow aiocp.Pool.BufferPool.take_at
    aiocp.Pool.BufferPool.clear aiocp.Pool.BufferPool.new aiocp.Handle.Guard.prepare
    aiocp.Handle.modify aiocp.Handle.on_pool aiocp.Handle.pure aiocp.Handle.Poll.after Port.permit
    aiocp.Task.header_lock
thread_body-Concluded_example =
    thread_body-Concluded kernel winsock zeros owed kernel-IsKernel winsock-IsWinsock packets
      kernel-IsQueue 0 1 [] stop_packet (read_packet ∷ []) [] asked asked-Inv room refl tt refl
      (tt, omega arith, omega arith, tt) (omega arith) refl

-- The header of handle 5 has a completed read when the shutdown comes in.
abbrev ready : System (List Entry)
ready = with_lock (negsuc read_code) (stop ∷ [])

abbrev read_op : Operation
read_op = read (0 ∷ 0 ∷ 0 ∷ [])

abbrev held : Ctx (List Entry)
held = (lock kernel false (code read_op) 9 (ctx_of ready 5)).1

granted : (lock kernel false (code read_op) 9 (ctx_of ready 5)).0 ≡ ok (some in_progress)
unfolding aiocp.Handle.Poll.poll aiocp.Handle.Poll.poll_operation aiocp.Handle.◌>>=◌
    aiocp.Handle.Guard.lock aiocp.Handle.Guard.take_permit aiocp.Handle.Guard.lock_header
    aiocp.Handle.Guard.locked aiocp.Handle.Guard.register_by_ref aiocp.Handle.Poll.guarded
    aiocp.Handle.Guard.with_guard aiocp.Handle.Guard.close aiocp.Handle.Guard.submit
    aiocp.Handle.Guard.forget_or_drop aiocp.Io.handle_io_pending aiocp.Handle.Operation.prepare
    aiocp.Handle.Operation.code aiocp.Handle.Ext.read_overlapped aiocp.Pool.BufferPool.take_buffer
    aiocp.Pool.BufferPool.ensure aiocp.Pool.BufferPool.grow aiocp.Pool.BufferPool.take_at
    aiocp.Pool.BufferPool.clear aiocp.Pool.BufferPool.new aiocp.Handle.Guard.prepare
    aiocp.Handle.modify aiocp.Handle.on_pool aiocp.Handle.pure aiocp.Handle.Poll.after Port.permit
    aiocp.Task.header_lock
granted = refl

held_stops : (Port.poll kernel held.shared).0 ≡ ok (shutdown 1)
unfolding aiocp.Handle.Poll.poll aiocp.Handle.Poll.poll_operation aiocp.Handle.◌>>=◌
    aiocp.Handle.Guard.lock aiocp.Handle.Guard.take_permit aiocp.Handle.Guard.lock_header
    aiocp.Handle.Guard.locked aiocp.Handle.Guard.register_by_ref aiocp.Handle.Poll.guarded
    aiocp.Handle.Guard.with_guard aiocp.Handle.Guard.close aiocp.Handle.Guard.submit
    aiocp.Handle.Guard.forget_or_drop aiocp.Io.handle_io_pending aiocp.Handle.Operation.prepare
    aiocp.Handle.Operation.code aiocp.Handle.Ext.read_overlapped aiocp.Pool.BufferPool.take_buffer
    aiocp.Pool.BufferPool.ensure aiocp.Pool.BufferPool.grow aiocp.Pool.BufferPool.take_at
    aiocp.Pool.BufferPool.clear aiocp.Pool.BufferPool.new aiocp.Handle.Guard.prepare
    aiocp.Handle.modify aiocp.Handle.on_pool aiocp.Handle.pure aiocp.Handle.Poll.after Port.permit
    aiocp.Task.header_lock Port.poll Port.poll_status Port.get_queued_completion_status
held_stops = refl

abbrev stopping : System (List Entry)
stopping = (stopped kernel (put_ctx ready 5 held) 1).system

collected : Finishes (rest_of_poll kernel zeros read_op in_progress 5 stopping).0
unfolding aiocp.Handle.Poll.poll aiocp.Handle.Poll.poll_operation aiocp.Handle.◌>>=◌
    aiocp.Handle.Guard.lock aiocp.Handle.Guard.take_permit aiocp.Handle.Guard.lock_header
    aiocp.Handle.Guard.locked aiocp.Handle.Guard.register_by_ref aiocp.Handle.Poll.guarded
    aiocp.Handle.Guard.with_guard aiocp.Handle.Guard.close aiocp.Handle.Guard.submit
    aiocp.Handle.Guard.forget_or_drop aiocp.Io.handle_io_pending aiocp.Handle.Operation.prepare
    aiocp.Handle.Operation.code aiocp.Handle.Ext.read_overlapped aiocp.Pool.BufferPool.take_buffer
    aiocp.Pool.BufferPool.ensure aiocp.Pool.BufferPool.grow aiocp.Pool.BufferPool.take_at
    aiocp.Pool.BufferPool.clear aiocp.Pool.BufferPool.new aiocp.Handle.Guard.prepare
    aiocp.Handle.modify aiocp.Handle.on_pool aiocp.Handle.pure aiocp.Handle.Poll.after Port.permit
    aiocp.Task.header_lock Port.poll Port.poll_status Port.get_queued_completion_status
    finish_operation aiocp.Handle.Guard.handle_result aiocp.Handle.Guard.drop_guard
    aiocp.Handle.Operation.collect aiocp.Pool.BufferPool.release
collected = tt

abbrev waiting : Closing (List Entry)
waiting = record (stopped kernel (put_ctx ready 5 held) 1) {
  system = put_ctx stopping 5 (rest_of_poll kernel zeros read_op in_progress 5 stopping).1;
}

CloseReach-Guarded_example : waiting.remaining ≡ length (owed waiting.system.shared.world) + 1
CloseReach-Guarded_example =
    CloseReach-Guarded kernel winsock zeros owed kernel-IsKernel winsock-IsWinsock false 5 9 1
      read_op in_progress (with_lock-Inv (negsuc read_code) (stop ∷ []) refl) (omega arith) granted
      held_stops collected CloseReach.here
