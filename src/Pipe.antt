-- ===== src/Pipe.antt =====
-- src/pipe.rs: the builder of a named pipe and the call that creates it.
pub mod Flags
use Prim.Native.Nat.{bit_and, bit_or}
use aiocp.Prelude.{ℕ, ◌-◌, ◌^◌, Bool, List, [], ◌∷◌, ◌++◌, ltb, ◌==◌, if◌then◌else◌}
use aiocp.Io.{Outcome, ok, err, panic, os_error, and_then}

-- The constants of `windows_sys` that the builder uses.
pub record PipeFlags : Type 0 where
  pub access_inbound : ℕ
  pub access_outbound : ℕ
  pub access_duplex : ℕ
  pub first_pipe_instance : ℕ
  pub type_byte : ℕ
  pub type_message : ℕ
  pub reject_remote_clients : ℕ
  pub unlimited_instances : ℕ

-- `PipeMode`
pub data PipeMode : Type 0 where
  byte message : PipeMode

-- `CreatePipeOptions`
pub record CreatePipeOptions : Type 0 where
  pub open_mode : ℕ
  pub pipe_mode : ℕ
  pub max_instances : ℕ
  pub out_buffer_size : ℕ
  pub in_buffer_size : ℕ
  pub default_timeout : ℕ
  pub custom_flags : ℕ

-- The macro `bool_flag!` on a `u32`.
unfoldable pub bool_flag : ℕ → Bool → ℕ → ℕ
bool_flag current t flag = if t then bit_or current flag else bit_and current (2 ^ 32 - 1 - flag)

-- The calls of the builder.
pub data Setter : Type 0 where
  set_pipe_mode : PipeMode → Setter
  set_access_inbound set_access_outbound set_first_pipe_instance set_reject_remote_clients :
      Bool → Setter
  set_max_instances set_out_buffer_size set_in_buffer_size set_custom_flags : ℕ → Setter

module _ (f : PipeFlags) where
  -- `CreatePipeOptions::new`
  unfoldable pub new : CreatePipeOptions
  new = record {
    open_mode = f.access_duplex;
    pipe_mode = bit_or f.type_byte f.reject_remote_clients;
    max_instances = f.unlimited_instances;
    out_buffer_size = 65536;
    in_buffer_size = 65536;
    default_timeout = 0;
    custom_flags = 0;
  }

  mode_value : PipeMode → ℕ
  mode_value byte = f.type_byte
  mode_value message = f.type_message

  -- The setters of the builder.
  unfoldable pub pipe_mode : PipeMode → CreatePipeOptions → CreatePipeOptions
  unfolding mode_value
  pipe_mode m o = record o { pipe_mode = mode_value m }

  unfoldable pub access_inbound : Bool → CreatePipeOptions → CreatePipeOptions
  unfolding bool_flag
  access_inbound allowed o = record o { open_mode = bool_flag o.open_mode allowed f.access_inbound }

  unfoldable pub access_outbound : Bool → CreatePipeOptions → CreatePipeOptions
  unfolding bool_flag
  access_outbound allowed o = record o {
    open_mode = bool_flag o.open_mode allowed f.access_outbound;
  }

  unfoldable pub first_pipe_instance : Bool → CreatePipeOptions → CreatePipeOptions
  unfolding bool_flag
  first_pipe_instance first o = record o {
    open_mode = bool_flag o.open_mode first f.first_pipe_instance;
  }

  unfoldable pub reject_remote_clients : Bool → CreatePipeOptions → CreatePipeOptions
  unfolding bool_flag
  reject_remote_clients reject o = record o {
    pipe_mode = bool_flag o.pipe_mode reject f.reject_remote_clients;
  }

-- The assertion of `max_instances` panics.
unfoldable pub max_instances : ℕ → CreatePipeOptions → Outcome CreatePipeOptions
max_instances n o = if ltb n 255 then ok (record o { max_instances = n }) else panic

unfoldable pub out_buffer_size : ℕ → CreatePipeOptions → CreatePipeOptions
out_buffer_size n o = record o { out_buffer_size = n }

unfoldable pub in_buffer_size : ℕ → CreatePipeOptions → CreatePipeOptions
in_buffer_size n o = record o { in_buffer_size = n }

unfoldable pub custom_flags : ℕ → CreatePipeOptions → CreatePipeOptions
custom_flags n o = record o { custom_flags = n }

module _ (f : PipeFlags) where
  -- One call of the builder.
  unfoldable pub apply : Setter → CreatePipeOptions → Outcome CreatePipeOptions
  unfolding pipe_mode access_inbound access_outbound first_pipe_instance reject_remote_clients
      max_instances out_buffer_size in_buffer_size custom_flags
  apply (set_pipe_mode m) o = ok (pipe_mode f m o)
  apply (set_access_inbound allowed) o = ok (access_inbound f allowed o)
  apply (set_access_outbound allowed) o = ok (access_outbound f allowed o)
  apply (set_first_pipe_instance first) o = ok (first_pipe_instance f first o)
  apply (set_reject_remote_clients reject) o = ok (reject_remote_clients f reject o)
  apply (set_max_instances n) o = max_instances n o
  apply (set_out_buffer_size n) o = ok (out_buffer_size n o)
  apply (set_in_buffer_size n) o = ok (in_buffer_size n o)
  apply (set_custom_flags n) o = ok (custom_flags n o)

  -- A chain of calls on the builder.
  unfoldable pub build : List Setter → CreatePipeOptions → Outcome CreatePipeOptions
  build [] o = ok o
  build (s ∷ ss) o = and_then (apply s o) (build ss)

-- `encode_addr`, on the wide characters of the address.
unfoldable pub encode_addr : List ℕ → List ℕ
encode_addr wide = wide ++ 0 ∷ []

-- What `CreateNamedPipeW` is called with.
pub record CreateCall : Type 0 where
  pub name : List ℕ
  pub open_mode : ℕ
  pub pipe_mode : ℕ
  pub max_instances : ℕ
  pub out_buffer_size : ℕ
  pub in_buffer_size : ℕ
  pub default_timeout : ℕ
  pub attributes : ℕ

-- The two calls that the module makes, over the state `W` of the system: `CreateNamedPipeW` returns a
-- handle, and `last_error` is the number that `GetLastError` has after it.
pub record PipeApi (W : Type 0) : Type 0 where
  pub invalid_handle_value : ℕ
  pub create_named_pipe : CreateCall → W → ℕ × W
  pub last_error : W → ℕ
  pub close_handle : ℕ → W → W

module _ {W : Type 0} (api : PipeApi W) where
  -- `create_with_security_attributes`; the handle is the `NamedPipe`.
  unfoldable pub create_with_security_attributes :
      List ℕ → ℕ → CreatePipeOptions → W → Outcome ℕ × W
  unfolding encode_addr
  create_with_security_attributes addr attrs o w =
      let (handle, w') =
        api.create_named_pipe
          (record {
            name = encode_addr addr;
            open_mode = bit_or o.custom_flags o.open_mode;
            pipe_mode = o.pipe_mode;
            max_instances = o.max_instances;
            out_buffer_size = o.out_buffer_size;
            in_buffer_size = o.in_buffer_size;
            default_timeout = o.default_timeout;
            attributes = attrs;
          })
          w in
      (
        if handle == api.invalid_handle_value
            then err (os_error (api.last_error w'))
            else ok handle,
        w',
      )

  -- `create`, with no security attributes
  unfoldable pub create : List ℕ → CreatePipeOptions → W → Outcome ℕ × W
  unfolding create_with_security_attributes
  create addr o w = create_with_security_attributes addr 0 o w

  -- `drop` of a `NamedPipe`
  unfoldable pub drop_pipe : ℕ → W → W
  drop_pipe handle w = api.close_handle handle w
