-- ===== src/Handle/Register.antt =====
-- The start of src/completion_port.rs: a port is created, and handles are registered with it.
use aiocp.Prelude.{ℕ, ◌^◌, ◌≡◌, refl, true, leb, if◌then◌else◌, Bool-cases, inl, inr}
use aiocp.Io.{Outcome, ok, err, os_error, reserved_port}
use aiocp.Os.{Os, Call, success, failure}
use aiocp.Shared.{Port, Shared, with_world}
use aiocp.Port.{
  reserved_ports, poll, poll_status, get_queued_completion_status, status_of, status, fetch_sub,
}
use aiocp.Handle.Defs
use aiocp.Handle.Defs.{Handle}

-- `RegisterOptions`
pub record RegisterOptions : Type 0 where
  pub key : ℕ
  pub max_buffer_size : ℕ

abbrev pub default_max_buffer_size : ℕ
default_max_buffer_size = 2 ^ 16

-- `RegisterOptions::default` and `RegisterOptions::with_max_buffer_size`
abbrev pub default_options : RegisterOptions
default_options = record { key = 0; max_buffer_size = default_max_buffer_size }

abbrev pub with_max_buffer_size : ℕ → RegisterOptions → RegisterOptions
with_max_buffer_size n o = record o { max_buffer_size = n }

module _ {W : Type 0} (os : Os W) where
  unfoldable pub created : Call × W → Outcome Port × W
  created (success raw, w) = (ok (record { raw = raw; pending = 0 }), w)
  created (failure e, w) = (err (os_error e), w)

  -- `CompletionPort::create`; `failure` stands for the null handle.
  unfoldable pub create : ℕ → W → Outcome Port × W
  unfolding created
  create threads w = created (os.create_io_completion_port os.invalid_handle_value 0 0 threads w)

  unfoldable pub registered : ℕ → ℕ → ℕ → Shared W → Call × W → Outcome Handle × Shared W
  unfolding Defs.new
  registered raw address size s (success _, w) =
      let (h, s') = Defs.new raw address size (with_world w s) in (ok h, s')
  registered raw address size s (failure e, w) = (err (os_error e), with_world w s)

  -- `CompletionPort::register_handle`; `address` is where the new header is allocated.
  unfoldable pub register_handle : ℕ → ℕ → RegisterOptions → Shared W → Outcome Handle × Shared W
  unfolding registered
  register_handle raw address o s =
      if leb reserved_ports o.key
      then (err reserved_port, s)
      else registered raw address o.max_buffer_size s
          (os.create_io_completion_port raw s.port.raw o.key 0 s.world)

  -- A key with which a handle could be registered is none that the port keeps for itself: whatever
  -- packet comes in with that key, `poll` returns its status and counts it as one operation less, and
  -- takes it neither for a shutdown nor for an error.
  pub register_handle-poll :
      (raw address : ℕ) (o : RegisterOptions) (h : Handle) (s t : Shared W)
      → (register_handle raw address o s).0 ≡ ok h
      → (os.get_queued_completion_status t.port.raw t.world).0.completion_key ≡ o.key
      → ((poll os t).0
          ≡ ok (status (status_of os (os.get_queued_completion_status t.port.raw t.world).0)))
        × ((poll os t).1.port ≡ fetch_sub 1 t.port)
  unfolding register_handle poll poll_status get_queued_completion_status status_of
  register_handle-poll raw address o h s t e k = elim (Bool-cases (leb reserved_ports o.key)) [
    | inl reserved ↦ absurd (reserved_refused reserved e)
    | inr free ↦ rw (k, free) (refl, refl)
  ]
    where
      reserved_refused :
          leb reserved_ports o.key ≡ true → (register_handle raw address o s).0 ≡ ok h → ⊥
      reserved_refused r e = cc
