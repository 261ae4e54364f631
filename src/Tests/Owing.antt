-- ===== src/Tests/Owing.antt =====
-- The theorems on all handles of a port, applied to a small system.
use aiocp.Prelude.{count, ◌≡◌, ◌≢◌, ◌⊎◌, refl, true, false, some, List, [], ◌∷◌, arith}
use aiocp.Io.{ok, panic, pending}
use aiocp.Port
use aiocp.Port.{CompletionStatus, status, shutdown, shutdown_port, reserved_ports, poll_status}
use aiocp.Background.{dispatch}
use aiocp.Background.Liveness.{poll-dispatch-Finishes}
use aiocp.Handle.Balance.{Finishes}
use aiocp.Pool.BufferPool
use aiocp.Handle.{Ctx}
use aiocp.Handle.Operation.{read}
use aiocp.Handle.Poll.{State, running, poll}
use aiocp.Handle.Accounts.{Accounts, poll-Accounts}
use aiocp.Socket.{SocketCtx}
use aiocp.Socket.Poll as Accepting
use aiocp.Socket.Balance as Accepted
use aiocp.Socket.Liveness.{poll_accept-dispatch-Finishes}
use aiocp.Socket.Ready.{IsReady, polled, handled, here, next, ListenerReach-IsReady}
use aiocp.Pool.SocketPool.Lent.{SocketErrors}
use aiocp.Socket.Connection.{heap_of}
use aiocp.Socket.Accounts.{Accounted, poll-Accounted}
use aiocp.System.{drop_handle, ctx_of, socket_of}
use aiocp.System.Invariant.{Books}
use aiocp.System.Safety.{Reach-Inv}
use aiocp.System.Others.{asked, drop_handle-owes}
use aiocp.Tests.System.{zeros}
use aiocp.Tests.Small.{
  Entry, kernel, kernel-IsKernel, winsock, winsock-IsWinsock, owed, fresh, fresh-Inv, reading, busy,
  busy-Reach,
}

poll-Accounts_example :
    let (r, _, c') = poll kernel zeros false 9 reading (ctx_of (fresh []) 5) in
    Accounts owed (ctx_of (fresh []) 5) c'
poll-Accounts_example =
    poll-Accounts kernel zeros owed kernel-IsKernel false 9 reading (ctx_of (fresh []) 5)
      (omega arith)

-- A connection is to get a header at address 8, where handle 8 has one.
poll-Accounted_example :
    Accounted owed 8
      (heap_of (socket_of (fresh []) 5) 8)
      (socket_of (fresh []) 5)
      (Accepting.poll kernel winsock zeros false 9 8 Accepting.running (socket_of (fresh []) 5))
poll-Accounted_example =
    poll-Accounted kernel winsock zeros owed kernel-IsKernel winsock-IsWinsock false 9 8
      Accepting.running (socket_of (fresh []) 5) (omega arith) (omega arith)

busy-Books : Books owed busy
busy-Books =
    (Reach-Inv kernel winsock zeros owed kernel-IsKernel winsock-IsWinsock (fresh-Inv [] refl)
      busy-Reach).books

-- The handle has a read in flight.
drop_handle-owes_example :
    let s' = drop_handle kernel busy 5 in
    let h = busy.handles 5 in
    (s'.shared.world ≡ asked kernel (busy.shared.heap h.header) h busy.shared.world)
    × (owed s'.shared.world ≡ owed busy.shared.world)
    × (s'.shared.port ≡ busy.shared.port)
    × ((s'.shared.heap h.header).strong ≡ count h.header (owed s'.shared.world))
drop_handle-owes_example = drop_handle-owes kernel owed kernel-IsKernel busy 5 busy-Books refl

-- The packet of the read.
abbrev completed : CompletionStatus
completed = record {
  header = some 5;
  completion_key = 0;
  bytes_transferred = 3;
  outcome = Port.completed;
}

-- The handle of a context once its read has been submitted.
abbrev submitted : Ctx (List Entry)
submitted = (poll kernel zeros false 9 reading (ctx_of (fresh []) 5)).2

stays : poll kernel zeros false 9 reading (ctx_of (fresh []) 5) ≡ (ok pending, reading, submitted)
unfolding poll aiocp.Handle.Poll.poll_operation aiocp.Handle.◌>>=◌ aiocp.Handle.Guard.lock
    aiocp.Handle.Guard.take_permit aiocp.Handle.Guard.lock_header aiocp.Handle.Guard.locked
    aiocp.Handle.Guard.register_by_ref aiocp.Handle.Poll.guarded aiocp.Handle.Guard.with_guard
    aiocp.Handle.Guard.close aiocp.Handle.Guard.submit aiocp.Handle.Guard.forget_or_drop
    aiocp.Io.handle_io_pending aiocp.Handle.Operation.prepare aiocp.Handle.Operation.code
    aiocp.Handle.Ext.read_overlapped BufferPool.take_buffer BufferPool.ensure BufferPool.grow
    BufferPool.take_at BufferPool.clear BufferPool.new aiocp.Handle.Guard.prepare
    aiocp.Handle.modify aiocp.Handle.on_pool aiocp.Handle.pure aiocp.Handle.Poll.after Port.permit
    aiocp.Task.header_lock
stays = refl

poll-dispatch-Finishes_example :
    let s = dispatch kernel 0 completed (poll_status kernel completed submitted.shared).1 in
    Finishes (poll kernel zeros true 8 reading (record submitted { shared = s })).0
poll-dispatch-Finishes_example =
    poll-dispatch-Finishes kernel zeros 9 8 0 true (read (0 ∷ 0 ∷ 0 ∷ [])) completed
      (ctx_of (fresh []) 5) submitted (omega arith) refl stays refl (omega arith)

-- The listener once its accept has been submitted.
abbrev accepting : SocketCtx (List Entry)
accepting =
    (Accepting.poll kernel winsock zeros false 9 8 Accepting.running (socket_of (fresh []) 5)).2

accept_stays :
    Accepting.poll kernel winsock zeros false 9 8 Accepting.running (socket_of (fresh []) 5)
    ≡ (ok pending, Accepting.running, accepting)
unfolding Accepting.poll Accepting.poll_accept Accepting.guarded Accepting.after aiocp.Socket.◌>>=◌
    aiocp.Socket.on_ctx aiocp.Socket.on_sockets_world aiocp.Socket.Guard.prepare
    aiocp.Socket.Guard.submit aiocp.Socket.Guard.forget_or_drop aiocp.Socket.Guard.close
    aiocp.Socket.Accept.prepare aiocp.Socket.Accept.accept aiocp.Pool.SocketPool.take_socket
    aiocp.Pool.SocketPool.new BufferPool.take_buffer BufferPool.ensure BufferPool.grow
    BufferPool.take_at BufferPool.new aiocp.Io.handle_io_pending aiocp.Handle.Guard.lock
    aiocp.Handle.Guard.take_permit aiocp.Handle.Guard.lock_header aiocp.Handle.Guard.locked
    aiocp.Handle.Guard.register_by_ref aiocp.Handle.◌>>=◌ aiocp.Handle.modify aiocp.Handle.on_pool
    aiocp.Handle.pure Port.permit aiocp.Task.header_lock
accept_stays = refl

poll_accept-dispatch-Finishes_example :
    let s = dispatch kernel 0 completed (poll_status kernel completed accepting.ctx.shared).1 in
    Accepted.Finishes 8
      (Accepting.poll kernel winsock zeros true 8 8 Accepting.running
        (record accepting { ctx = record accepting.ctx { shared = s } })).0
poll_accept-dispatch-Finishes_example =
    poll_accept-dispatch-Finishes kernel winsock zeros 9 8 0 8 8 true completed
      (socket_of (fresh []) 5) accepting (omega arith) refl accept_stays refl (omega arith)

-- The packet of the accept has been dealt with.
abbrev accepted : SocketCtx (List Entry)
accepted = record accepting {
  ctx = record accepting.ctx { shared = dispatch kernel 0 completed accepting.ctx.shared };
}

winsock-SocketErrors : SocketErrors winsock
winsock-SocketErrors = record { not_pending = λ info e w h. cc }

ListenerReach-IsReady_example :
    IsReady accepted
    × (((Accepting.poll kernel winsock zeros true 8 8 Accepting.running accepted).0 ≢ panic)
        ⊎ ((BufferPool.take_buffer zeros 128 accepted.ctx.handle.pool).0 ≡ panic))
ListenerReach-IsReady_example =
    ListenerReach-IsReady kernel winsock zeros winsock-SocketErrors 1 true 8 8 Accepting.running
      refl refl (next (next here (polled false 9 8 Accepting.running)) (handled 0 completed))
