-- ===== src/Tests/Start.antt =====
-- A port is created, a handle and a listener are registered with it, and the listener accepts a
-- connection.
use aiocp.Prelude.{◌≡◌, refl, List, [], some, false, true, arith}
use aiocp.Io.{ok}
use aiocp.Shared.{Port}
use aiocp.Port as Completions
use aiocp.Port.{CompletionStatus, status, completed}
use aiocp.Background.{dispatch}
use aiocp.Handle.{Handle}
use aiocp.Handle.Register.{create, register_handle, default_options}
use aiocp.Socket.{Socket}
use aiocp.Socket.Poll.{running}
use aiocp.Socket.Register.{register_socket}
use aiocp.System.{
  System, Reach, IsFree, polls, others, registered, socket_registered, accept_polled, handled,
  adopt, adopt_socket, accept_on, HasRoom,
}
use aiocp.System.Invariant.{Inv}
use aiocp.System.Start.{empty, create-Inv}
use aiocp.Tests.System.{zeros}
use aiocp.Tests.Small.{Entry, kernel, winsock, kernel-IsKernel, winsock-IsWinsock, owed}

abbrev port : Port
port = record { raw = 1; pending = 0 }

abbrev start : System (List Entry)
start = empty port (create kernel 1 []).1

created_port : (create kernel 1 []).0 ≡ ok port
unfolding create
created_port = refl

-- Handle 3 gets a header at address 3.
abbrev file : Handle
file = (aiocp.Handle.new 7 3 65536 start.shared).0

file-IsFree : IsFree owed start 3 3
unfolding create
file-IsFree = record { dead = refl; settled = refl; fresh = λ j e. e }

file_registered : (register_handle kernel 7 3 default_options start.shared).0 ≡ ok file
unfolding register_handle create aiocp.Handle.Register.registered aiocp.Handle.new
file_registered = refl

abbrev opened : System (List Entry)
opened = adopt start 3 file (register_handle kernel 7 3 default_options start.shared).1

-- The listener gets the number 5, and a header at address 5.
abbrev listener : Socket
listener = record {
  base = (aiocp.Handle.new 8 5 65536 start.shared).0;
  sockets = aiocp.Pool.SocketPool.new 77;
}

listener-IsFree : IsFree owed opened 5 5
unfolding create register_handle aiocp.Handle.Register.registered aiocp.Handle.new
listener-IsFree = record { dead = refl; settled = refl; fresh = λ j e. ground (arith, e) }

listener_registered :
    (register_socket kernel winsock 8 5 default_options opened.shared).0 ≡ ok listener
unfolding register_socket register_handle create aiocp.Handle.Register.registered aiocp.Handle.new
    aiocp.Socket.Register.registered aiocp.Socket.new aiocp.Socket.wrapped aiocp.Pool.SocketPool.new
listener_registered = refl

abbrev listening : System (List Entry)
listening =
    adopt_socket opened 5 listener
      (register_socket kernel winsock 8 5 default_options opened.shared).1

listening-HasRoom : HasRoom owed listening
unfolding register_socket register_handle create aiocp.Handle.Register.registered aiocp.Handle.new
    aiocp.Socket.Register.registered aiocp.Socket.new aiocp.Socket.wrapped aiocp.Pool.SocketPool.new
listening-HasRoom = omega arith

-- A connection is to get the number 6, and a header at address 6.
connection-IsFree : IsFree owed listening 6 6
unfolding register_socket register_handle create aiocp.Handle.Register.registered aiocp.Handle.new
    aiocp.Socket.Register.registered aiocp.Socket.new aiocp.Socket.wrapped aiocp.Pool.SocketPool.new
connection-IsFree = record { dead = refl; settled = refl; fresh = λ j e. ground (arith, e) }

abbrev submitted : System (List Entry)
submitted = accept_on kernel winsock zeros listening 5 6 6 false 9 running

submitted-Reach : Reach kernel winsock zeros owed start submitted
submitted-Reach =
    Reach.next
      (Reach.next
        (Reach.next Reach.here
          (others (registered 3 7 3 default_options file file-IsFree file_registered)))
        (others
          (socket_registered 5 8 5 default_options listener listener-IsFree listener_registered)))
      (polls (accept_polled 5 6 6 false 9 running refl listening-HasRoom connection-IsFree))

-- The packet of the accept.
abbrev finished : CompletionStatus
finished = record {
  header = some 5;
  completion_key = 0;
  bytes_transferred = 3;
  outcome = completed;
}

submitted-HasRoom : HasRoom owed submitted
unfolding aiocp.Socket.Poll.poll aiocp.Socket.Poll.poll_accept aiocp.Socket.Poll.guarded
    aiocp.Socket.Poll.after aiocp.Socket.◌>>=◌ aiocp.Socket.on_ctx aiocp.Socket.on_sockets_world
    aiocp.Socket.Guard.prepare aiocp.Socket.Guard.submit aiocp.Socket.Guard.forget_or_drop
    aiocp.Socket.Guard.close aiocp.Socket.Accept.prepare aiocp.Socket.Accept.accept
    aiocp.Pool.SocketPool.take_socket aiocp.Pool.SocketPool.new aiocp.Pool.BufferPool.take_buffer
    aiocp.Pool.BufferPool.ensure aiocp.Pool.BufferPool.grow aiocp.Pool.BufferPool.take_at
    aiocp.Pool.BufferPool.new aiocp.Io.handle_io_pending aiocp.Handle.Guard.lock
    aiocp.Handle.Guard.take_permit aiocp.Handle.Guard.lock_header aiocp.Handle.Guard.locked
    aiocp.Handle.Guard.register_by_ref aiocp.Handle.◌>>=◌ aiocp.Handle.modify aiocp.Handle.on_pool
    aiocp.Handle.pure Completions.permit aiocp.Task.header_lock register_socket register_handle
    create aiocp.Handle.Register.registered aiocp.Handle.new aiocp.Socket.Register.registered
    aiocp.Socket.new aiocp.Socket.wrapped
submitted-HasRoom = omega arith

submitted_finds : (Completions.poll kernel submitted.shared).0 ≡ ok (status finished)
unfolding aiocp.Socket.Poll.poll aiocp.Socket.Poll.poll_accept aiocp.Socket.Poll.guarded
    aiocp.Socket.Poll.after aiocp.Socket.◌>>=◌ aiocp.Socket.on_ctx aiocp.Socket.on_sockets_world
    aiocp.Socket.Guard.prepare aiocp.Socket.Guard.submit aiocp.Socket.Guard.forget_or_drop
    aiocp.Socket.Guard.close aiocp.Socket.Accept.prepare aiocp.Socket.Accept.accept
    aiocp.Pool.SocketPool.take_socket aiocp.Pool.SocketPool.new aiocp.Pool.BufferPool.take_buffer
    aiocp.Pool.BufferPool.ensure aiocp.Pool.BufferPool.grow aiocp.Pool.BufferPool.take_at
    aiocp.Pool.BufferPool.new aiocp.Io.handle_io_pending aiocp.Handle.Guard.lock
    aiocp.Handle.Guard.take_permit aiocp.Handle.Guard.lock_header aiocp.Handle.Guard.locked
    aiocp.Handle.Guard.register_by_ref aiocp.Handle.◌>>=◌ aiocp.Handle.modify aiocp.Handle.on_pool
    aiocp.Handle.pure Completions.permit aiocp.Task.header_lock register_socket register_handle
    create aiocp.Handle.Register.registered aiocp.Handle.new aiocp.Socket.Register.registered
    aiocp.Socket.new aiocp.Socket.wrapped Completions.poll Completions.poll_status
    Completions.get_queued_completion_status Completions.status_of
submitted_finds = refl

abbrev handled_once : System (List Entry)
handled_once = record submitted {
  shared = dispatch kernel 0 finished (Completions.poll kernel submitted.shared).1;
}

handled-HasRoom : HasRoom owed handled_once
unfolding aiocp.Socket.Poll.poll aiocp.Socket.Poll.poll_accept aiocp.Socket.Poll.guarded
    aiocp.Socket.Poll.after aiocp.Socket.◌>>=◌ aiocp.Socket.on_ctx aiocp.Socket.on_sockets_world
    aiocp.Socket.Guard.prepare aiocp.Socket.Guard.submit aiocp.Socket.Guard.forget_or_drop
    aiocp.Socket.Guard.close aiocp.Socket.Accept.prepare aiocp.Socket.Accept.accept
    aiocp.Pool.SocketPool.take_socket aiocp.Pool.SocketPool.new aiocp.Pool.BufferPool.take_buffer
    aiocp.Pool.BufferPool.ensure aiocp.Pool.BufferPool.grow aiocp.Pool.BufferPool.take_at
    aiocp.Pool.BufferPool.new aiocp.Io.handle_io_pending aiocp.Handle.Guard.lock
    aiocp.Handle.Guard.take_permit aiocp.Handle.Guard.lock_header aiocp.Handle.Guard.locked
    aiocp.Handle.Guard.register_by_ref aiocp.Handle.◌>>=◌ aiocp.Handle.modify aiocp.Handle.on_pool
    aiocp.Handle.pure Completions.permit aiocp.Task.header_lock register_socket register_handle
    create aiocp.Handle.Register.registered aiocp.Handle.new aiocp.Socket.Register.registered
    aiocp.Socket.new aiocp.Socket.wrapped Completions.poll Completions.poll_status
    Completions.get_queued_completion_status Completions.status_of Completions.drop_status
    Completions.release Completions.unlock_status Completions.release_header dispatch
    aiocp.Task.unlock aiocp.Background.by_outcome aiocp.Task.unlock_loop
handled-HasRoom = omega arith

connection_still-IsFree : IsFree owed handled_once 6 6
unfolding aiocp.Socket.Poll.poll aiocp.Socket.Poll.poll_accept aiocp.Socket.Poll.guarded
    aiocp.Socket.Poll.after aiocp.Socket.◌>>=◌ aiocp.Socket.on_ctx aiocp.Socket.on_sockets_world
    aiocp.Socket.Guard.prepare aiocp.Socket.Guard.submit aiocp.Socket.Guard.forget_or_drop
    aiocp.Socket.Guard.close aiocp.Socket.Accept.prepare aiocp.Socket.Accept.accept
    aiocp.Pool.SocketPool.take_socket aiocp.Pool.SocketPool.new aiocp.Pool.BufferPool.take_buffer
    aiocp.Pool.BufferPool.ensure aiocp.Pool.BufferPool.grow aiocp.Pool.BufferPool.take_at
    aiocp.Pool.BufferPool.new aiocp.Io.handle_io_pending aiocp.Handle.Guard.lock
    aiocp.Handle.Guard.take_permit aiocp.Handle.Guard.lock_header aiocp.Handle.Guard.locked
    aiocp.Handle.Guard.register_by_ref aiocp.Handle.◌>>=◌ aiocp.Handle.modify aiocp.Handle.on_pool
    aiocp.Handle.pure Completions.permit aiocp.Task.header_lock register_socket register_handle
    create aiocp.Handle.Register.registered aiocp.Handle.new aiocp.Socket.Register.registered
    aiocp.Socket.new aiocp.Socket.wrapped Completions.poll Completions.poll_status
    Completions.get_queued_completion_status Completions.status_of Completions.drop_status
    Completions.release Completions.unlock_status Completions.release_header dispatch
    aiocp.Task.unlock aiocp.Background.by_outcome aiocp.Task.unlock_loop
connection_still-IsFree = record { dead = refl; settled = refl; fresh = λ j e. ground (arith, e) }

listener_alive : handled_once.alive 5 ≡ true
unfolding aiocp.Socket.Poll.poll aiocp.Socket.Poll.poll_accept aiocp.Socket.Poll.guarded
    aiocp.Socket.Poll.after aiocp.Socket.◌>>=◌ aiocp.Socket.on_ctx aiocp.Socket.on_sockets_world
    aiocp.Socket.Guard.prepare aiocp.Socket.Guard.submit aiocp.Socket.Guard.forget_or_drop
    aiocp.Socket.Guard.close aiocp.Socket.Accept.prepare aiocp.Socket.Accept.accept
    aiocp.Pool.SocketPool.take_socket aiocp.Pool.SocketPool.new aiocp.Pool.BufferPool.take_buffer
    aiocp.Pool.BufferPool.ensure aiocp.Pool.BufferPool.grow aiocp.Pool.BufferPool.take_at
    aiocp.Pool.BufferPool.new aiocp.Io.handle_io_pending aiocp.Handle.Guard.lock
    aiocp.Handle.Guard.take_permit aiocp.Handle.Guard.lock_header aiocp.Handle.Guard.locked
    aiocp.Handle.Guard.register_by_ref aiocp.Handle.◌>>=◌ aiocp.Handle.modify aiocp.Handle.on_pool
    aiocp.Handle.pure Completions.permit aiocp.Task.header_lock register_socket register_handle
    create aiocp.Handle.Register.registered aiocp.Handle.new aiocp.Socket.Register.registered
    aiocp.Socket.new aiocp.Socket.wrapped
listener_alive = refl

abbrev connected : System (List Entry)
connected = accept_on kernel winsock zeros handled_once 5 6 6 true 9 running

connected-Reach : Reach kernel winsock zeros owed start connected
connected-Reach =
    Reach.next (Reach.next submitted-Reach (handled 0 finished submitted-HasRoom submitted_finds)) (
      polls
        (accept_polled 5 6 6 true 9 running listener_alive handled-HasRoom connection_still-IsFree))

create-Inv_example : Inv owed connected
create-Inv_example =
    create-Inv kernel winsock zeros owed kernel-IsKernel winsock-IsWinsock 1 port [] created_port
      refl connected-Reach

-- The connection is there.
connection_lem : connected.alive 6 ≡ true
unfolding aiocp.Socket.Poll.poll aiocp.Socket.Poll.poll_accept aiocp.Socket.Poll.guarded
    aiocp.Socket.Poll.after aiocp.Socket.◌>>=◌ aiocp.Socket.on_ctx aiocp.Socket.on_sockets_world
    aiocp.Socket.Guard.prepare aiocp.Socket.Guard.submit aiocp.Socket.Guard.forget_or_drop
    aiocp.Socket.Guard.close aiocp.Socket.Accept.prepare aiocp.Socket.Accept.accept
    aiocp.Pool.SocketPool.take_socket aiocp.Pool.SocketPool.new aiocp.Pool.BufferPool.take_buffer
    aiocp.Pool.BufferPool.ensure aiocp.Pool.BufferPool.grow aiocp.Pool.BufferPool.take_at
    aiocp.Pool.BufferPool.new aiocp.Io.handle_io_pending aiocp.Handle.Guard.lock
    aiocp.Handle.Guard.take_permit aiocp.Handle.Guard.lock_header aiocp.Handle.Guard.locked
    aiocp.Handle.Guard.register_by_ref aiocp.Handle.◌>>=◌ aiocp.Handle.modify aiocp.Handle.on_pool
    aiocp.Handle.pure Completions.permit aiocp.Task.header_lock register_socket register_handle
    create aiocp.Handle.Register.registered aiocp.Handle.new aiocp.Socket.Register.registered
    aiocp.Socket.new aiocp.Socket.wrapped Completions.poll Completions.poll_status
    Completions.get_queued_completion_status Completions.status_of Completions.drop_status
    Completions.release Completions.unlock_status Completions.release_header dispatch
    aiocp.Task.unlock aiocp.Background.by_outcome aiocp.Task.unlock_loop
    aiocp.Handle.Guard.handle_result aiocp.Socket.Poll.finish_accept aiocp.Socket.Accept.collect
    aiocp.Socket.Accept.wrap aiocp.Socket.on_sockets aiocp.Pool.SocketPool.release
    aiocp.Socket.return aiocp.Socket.Guard.drop_guard aiocp.Socket.Guard.cleared
    aiocp.Socket.Guard.dropped aiocp.Pool.SocketPool.clear aiocp.Pool.BufferPool.clear
    aiocp.Pool.SocketPool.close_all
connection_lem = refl
