-- ===== src/Socket/Register.antt =====
-- `CompletionPort::register_socket` of src/completion_port.rs.
use aiocp.Prelude.{ℕ, leb, if◌then◌else◌}
use aiocp.Io.{Outcome, err, os_error, reserved_port}
use aiocp.Os.{Os, Call, success, failure}
use aiocp.Shared.{Shared, with_world}
use aiocp.Port.{reserved_ports}
use aiocp.Pool.SocketPool.{Winsock}
use aiocp.Handle.Register.{RegisterOptions}
use aiocp.Socket.Defs.{Socket, new}

module _ {W : Type 0} (os : Os W) (api : Winsock W) where
  unfoldable pub registered : ℕ → ℕ → ℕ → Shared W → Call × W → Outcome Socket × Shared W
  unfolding new
  registered raw address size s (success _, w) = new api raw address size (with_world w s)
  registered raw address size s (failure e, w) = (err (os_error e), with_world w s)

  unfoldable pub register_socket : ℕ → ℕ → RegisterOptions → Shared W → Outcome Socket × Shared W
  unfolding registered
  register_socket raw address o s =
      if leb reserved_ports o.key
      then (err reserved_port, s)
      else registered raw address o.max_buffer_size s
          (os.create_io_completion_port raw s.port.raw o.key 0 s.world)
