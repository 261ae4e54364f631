-- ===== src/Handle/Defs.antt =====
-- The state that a handle's methods work on, and the monad that they run in.
use aiocp.Prelude.{ℕ}
use aiocp.Io.{Outcome, ok, err, panic}
use aiocp.Task
use aiocp.Task.{Header}
use aiocp.Shared.{Shared, with_world, with_port, with_header, Port}
use aiocp.Pool.BufferPool
use aiocp.Pool.BufferPool.{BufferPool}

-- `Handle<H>`: the raw handle, the address of its header, and its pool. Its port is the shared one.
pub record Handle : Type 0 where
  pub raw : ℕ
  pub header : ℕ
  pub pool : BufferPool

pub record Ctx (W : Type 0) : Type 0 where
  pub shared : Shared W
  pub open shared use *
  pub handle : Handle
  pub open handle use *

module _ {W : Type 0} where
  abbrev pub set_world : W → Ctx W → Ctx W
  set_world w c = record c { shared = with_world w c.shared }

  abbrev pub set_port : Port → Ctx W → Ctx W
  set_port p c = record c { shared = with_port p c.shared }

  abbrev pub own_header : Ctx W → Header
  own_header c = c.shared.heap c.handle.header

  abbrev pub set_header : Header → Ctx W → Ctx W
  set_header h c = record c { shared = with_header c.handle.header h c.shared }

  abbrev pub set_pool : BufferPool → Ctx W → Ctx W
  set_pool p c = record c { handle = record c.handle { pool = p } }

-- A method may return, fail or panic, and has changed the state in each case.
abbrev pub M : Type 0 → Type 0 → Type 0
M W A = Ctx W → Outcome A × Ctx W

module _ {W : Type 0} where
  unfoldable pub pure : {A : Type 0} → A → M W A
  pure a c = (ok a, c)

  unfoldable pub unwind : {A : Type 0} → M W A
  unwind c = (panic, c)

  unfoldable pub modify : (Ctx W → Ctx W) → M W (Unit {0})
  modify f c = (ok tt, f c)

  -- A method of the pool, run on the handle's pool.
  unfoldable pub on_pool : {A : Type 0} → (BufferPool → Outcome A × BufferPool) → M W A
  on_pool f c = let (r, p) = f c.handle.pool in (r, set_pool p c)

abbrev pub continue : {W A B : Type 0} → Outcome A → (A → M W B) → M W B
continue (ok a) f c = f a c
continue (err e) f c = (err e, c)
continue panic f c = (panic, c)

-- To open this opens the actions above too.
infixl 5 ◌>>=◌ ◌>>◌
unfoldable pub ◌>>=◌ : {W A B : Type 0} → M W A → (A → M W B) → M W B
unfolding pure unwind modify on_pool
◌>>=◌ m f c = let (r, c') = m c in continue r f c'

abbrev pub ◌>>◌ : {W B : Type 0} → M W (Unit {0}) → M W B → M W B
m >> k = m >>= λ _. k

-- `Handle::new`: a new header at `address`, and a new pool.
unfoldable pub new : {W : Type 0} → ℕ → ℕ → ℕ → Shared W → Handle × Shared W
new raw address max_buffer_size s = (
  record { raw = raw; header = address; pool = BufferPool.new max_buffer_size },
  with_header address Task.new s,
)

-- `Handle::duplicate`: the same raw handle with a header and a pool of its own.
unfoldable pub duplicate : {W : Type 0} → ℕ → Ctx W → Handle × Shared W
unfolding new
duplicate address c = new c.handle.raw address c.handle.pool.max_buffer_size c.shared
