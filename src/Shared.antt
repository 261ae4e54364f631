-- ===== src/Shared.antt =====
-- The state that tasks, the system and the background thread share: everything outside the crate,
-- the interior of the completion port, and the headers by their address.
use aiocp.Prelude.{ℕ, ◌==◌, if◌then◌else◌}
use aiocp.Task.{Header}

-- `completion_port::Inner`. `pending` is the bit pattern of an `AtomicIsize` of 64 bits.
pub record Port : Type 0 where
  pub raw : ℕ
  pub pending : ℕ

pub record Shared (W : Type 0) : Type 0 where
  pub world : W
  pub port : Port
  pub heap : ℕ → Header

abbrev pub update : (ℕ → Header) → ℕ → Header → ℕ → Header
update heap a h b = if a == b then h else heap b

module _ {W : Type 0} where
  abbrev pub with_world : W → Shared W → Shared W
  with_world w s = record s { world = w }

  abbrev pub with_port : Port → Shared W → Shared W
  with_port p s = record s { port = p }

  abbrev pub with_header : ℕ → Header → Shared W → Shared W
  with_header a h s = record s { heap = update s.heap a h }
