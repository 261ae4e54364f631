-- ===== src/Handle/Ext.antt =====
-- src/handle/ext.rs: the system calls that start an overlapped operation.
use aiocp.Prelude.{ℕ, ◌-◌, ◌^◌, min, List, length, take, ltb, if◌then◌else◌}
use aiocp.Io.{Outcome, ok, err, panic, os_error}
use aiocp.Os.{Os, Call, success, failure}
use aiocp.Pool.BufferPool.{ReadBuf}
use aiocp.Handle.Defs.{M, set_world}

abbrev pub u32_max : ℕ
u32_max = 2 ^ 32 - 1

-- A call that fails reports `last_os_error`.
abbrev pub checked : Call → Outcome ℕ
checked (success n) = ok n
checked (failure e) = err (os_error e)

abbrev pub void : Outcome ℕ → Outcome (Unit {0})
void (ok _) = ok tt
void (err e) = err e
void panic = panic

module _ {W : Type 0} (os : Os W) where
  -- `read_overlapped`: the length is cut at `u32::MAX`. The filled part of the buffer that it
  -- advances is not read again.
  unfoldable pub read_overlapped : ReadBuf → M W (Unit {0})
  read_overlapped r c =
      let (call, w) =
        os.read_file c.handle.raw (min r.size u32_max) c.handle.header c.shared.world in
      (void (checked call), set_world w c)

  -- `write_overlapped`, also cut at `u32::MAX`
  unfoldable pub write_overlapped : List ℕ → M W ℕ
  write_overlapped bytes c =
      let data' = take (min (length bytes) u32_max) bytes in
      let (call, w) = os.write_file c.handle.raw data' c.handle.header c.shared.world in
      (checked call, set_world w c)

  -- `connect_overlapped`
  unfoldable pub connect_overlapped : M W (Unit {0})
  connect_overlapped c =
      let (call, w) = os.connect_named_pipe c.handle.raw c.handle.header c.shared.world in
      (void (checked call), set_world w c)

  -- `device_io_control_overlapped` with an input buffer and no output buffer, as it is called. A
  -- buffer of more than `u32::MAX` bytes panics.
  unfoldable pub device_io_control_overlapped : ℕ → List ℕ → M W ℕ
  device_io_control_overlapped control bytes c =
      let (call, w) =
        os.device_io_control c.handle.raw control bytes c.handle.header c.shared.world in
      if ltb u32_max (length bytes) then (panic, c) else (checked call, set_world w c)
