-- ===== src/Handle/Books/Calls.antt =====
-- The system calls and the operations: which of them are queued.
use aiocp.Prelude.{
  ℕ, ◌+◌, get_elem?, ◌≡◌, refl, ◌∙◌, Option, none, some, List, length, ltb, leb, min, take, arith,
  Bool-cases, inl, inr,
}
use aiocp.Io.{Outcome, ok, err, panic, OverlappedResult, handle_io_pending}
use aiocp.Os.{Os, Memory, Call, success, failure}
use aiocp.Kernel.{IsKernel, queue_call}
use aiocp.Pool.BufferPool.{
  BufferPool, ReadBuf, Buffer, capacity, ensure, grow, take_buffer, take_at, put_slice, put_in,
  put_at,
}
use aiocp.Handle.Defs.{Ctx, M, ◌>>=◌, on_pool, continue}
use aiocp.Handle.Guard.{handle_result}
use aiocp.Handle.Ext.{
  read_overlapped, write_overlapped, connect_overlapped, device_io_control_overlapped, checked,
  void, u32_max,
}
use aiocp.Handle.Operation.{
  Operation, write, read, connect_named_pipe, device_io_ctl, take_filled, prepare, collect,
  apply_to, OverlappedOutcome, unchanged, advances, copied,
}
use aiocp.Handle.Poll.{finish_operation, finish_read, finish_write, put_filled}
use aiocp.Handle.Books.Rules.{
  Quiet, Queues, queue_result, IsSure, Queues-bind, Queues-done, Quiet-if, Quiet-pure, Quiet-unwind,
  Quiet-on_pool, Quiet-bind, Quiet-advance,
}

module _ (m : Memory) where
  take_at-IsSure :
      (size i : ℕ) (p : BufferPool) (o : Option Buffer) → IsSure (take_at m size i p o).0
  unfolding take_at
  take_at-IsSure size i p none = tt
  take_at-IsSure size i p (some b) = elim (Bool-cases (leb size (capacity (ensure m size b)))) [
    | inl e ↦ rw e tt
    | inr e ↦ rw e tt
  ]

  pub take_buffer-IsSure : (n : ℕ) (p : BufferPool) → IsSure (take_buffer m n p).0
  unfolding take_buffer
  take_buffer-IsSure n p =
      let size = min n p.max_buffer_size in
      let p' = record p { buffers = grow m p.taken size p.buffers; taken = p.taken + 1 } in
      take_at-IsSure size p.taken p' (get_elem? p'.buffers p.taken)

  put_at-IsSure :
      (r : ReadBuf) (bytes : List ℕ) (p : BufferPool) (b : Buffer) (o : Option (List ℕ))
      → IsSure (put_at m r bytes p b o).0
  unfolding put_at
  put_at-IsSure r bytes p b none = tt
  put_at-IsSure r bytes p b (some x) = tt

  put_in-IsSure :
      (r : ReadBuf) (bytes : List ℕ) (p : BufferPool) (o : Option Buffer)
      → IsSure (put_in m r bytes p o).0
  unfolding put_in
  put_in-IsSure r bytes p none = tt
  put_in-IsSure r bytes p (some b) =
      put_at-IsSure r bytes p b (m.put_slice (take r.size b.memory) bytes)

  put_slice-IsSure :
      (r : ReadBuf) (bytes : List ℕ) (p : BufferPool) → IsSure (put_slice m r bytes p).0
  unfolding put_slice
  put_slice-IsSure r bytes p = put_in-IsSure r bytes p (get_elem? p.buffers r.index)

module _ {W : Type 0} where
  continue-IsSure :
      {A B : Type 0} (r : Outcome A) (f : A → M W B) (c : Ctx W)
      → IsSure r
      → ((a : A) (b : Ctx W) → IsSure (f a b).0)
      → IsSure (continue r f c).0
  continue-IsSure (ok a) f c h hf = hf a c
  continue-IsSure (err e) f c h hf = absurd h
  continue-IsSure panic f c h hf = tt

module _ {W : Type 0} (owed : W → List ℕ) where
  Quiet-copied : (buf bytes : List ℕ) → Quiet {W = W} owed (copied buf bytes)
  unfolding copied
  Quiet-copied buf bytes = search (Quiet-if, Quiet-pure, Quiet-unwind)

  Quiet-collect : (op : Operation) (r : OverlappedResult) → Quiet {W = W} owed (collect op r)
  unfolding collect
  Quiet-collect (write bytes) r = search Quiet-pure
  Quiet-collect (read buf) r = search (Quiet-bind, Quiet-on_pool, Quiet-copied)
  Quiet-collect connect_named_pipe r = search Quiet-pure
  Quiet-collect (device_io_ctl control bytes) r = search Quiet-pure

  Quiet-apply_to : (o : OverlappedOutcome) → Quiet {W = W} owed (apply_to o)
  unfolding apply_to
  Quiet-apply_to unchanged = search Quiet-pure
  Quiet-apply_to (advances n) = search Quiet-advance

  Quiet-put_filled :
      (bytes : List ℕ) (o : Option (List ℕ)) → Quiet {W = W} owed (put_filled bytes o)
  unfolding put_filled
  Quiet-put_filled bytes none = search Quiet-unwind
  Quiet-put_filled bytes (some slice) = search Quiet-pure

-- A call that succeeds or is pending is taken as queued, and it is.
queue_lem :
    (call : Call) (a : ℕ) (o : List ℕ)
    → queue_call call a o ≡ queue_result (handle_io_pending (void (checked call))) a o
unfolding handle_io_pending
queue_lem (success n) a o = refl
queue_lem (failure e) a o = ground arith

queue_checked :
    (call : Call) (a : ℕ) (o : List ℕ)
    → queue_call call a o ≡ queue_result (handle_io_pending (checked call)) a o
unfolding handle_io_pending
queue_checked (success n) a o = refl
queue_checked (failure e) a o = ground arith

module _ {W : Type 0} (os : Os W) (m : Memory) (owed : W → List ℕ) (k : IsKernel os owed) where
  pub Quiet-handle_result : Quiet owed (handle_result os)
  unfolding handle_result
  Quiet-handle_result = record {
    at = λ c. record {
      owes = k.get_overlapped_result_keeps c.handle.raw c.handle.header c.shared.world;
      header = refl;
    };
  }

  Queues-read_overlapped : (r : ReadBuf) → Queues owed (read_overlapped os r)
  unfolding read_overlapped
  Queues-read_overlapped r = record {
    books = λ c.
        k.read_file_queues c.handle.raw (min r.size u32_max) c.handle.header c.shared.world
        ∙ queue_lem
            (os.read_file c.handle.raw (min r.size u32_max) c.handle.header c.shared.world).0
            c.handle.header (owed c.shared.world);
  }

  pub Queues-write_overlapped : (bytes : List ℕ) → Queues owed (write_overlapped os bytes)
  unfolding write_overlapped
  Queues-write_overlapped bytes = record {
    books = λ c.
        let sent = take (min (length bytes) u32_max) bytes in
        k.write_file_queues c.handle.raw sent c.handle.header c.shared.world
        ∙ queue_checked (os.write_file c.handle.raw sent c.handle.header c.shared.world).0
            c.handle.header (owed c.shared.world);
  }

  Queues-connect_overlapped : Queues owed (connect_overlapped os)
  unfolding connect_overlapped
  Queues-connect_overlapped = record {
    books = λ c.
        k.connect_named_pipe_queues c.handle.raw c.handle.header c.shared.world
        ∙ queue_lem (os.connect_named_pipe c.handle.raw c.handle.header c.shared.world).0
            c.handle.header (owed c.shared.world);
  }

  Queues-device_io_control_overlapped :
      (control : ℕ) (bytes : List ℕ) → Queues owed (device_io_control_overlapped os control bytes)
  unfolding device_io_control_overlapped
  Queues-device_io_control_overlapped control bytes = record {
    books = λ c. elim (Bool-cases (ltb u32_max (length bytes))) [
      | inl e ↦ rw e (unfold handle_io_pending in refl)
      | inr e ↦ rw e (
          k.device_io_control_queues c.handle.raw control bytes c.handle.header c.shared.world
          ∙ queue_checked
              (os.device_io_control c.handle.raw control bytes c.handle.header c.shared.world).0
              c.handle.header (owed c.shared.world))
    ];
  }

  pub Quiet-take_filled : (bytes : List ℕ) → Quiet owed (take_filled os m bytes)
  unfolding take_filled
  Quiet-take_filled bytes = search (Quiet-bind, Quiet-on_pool)

  -- A read that takes its buffer first.
  pub Queues-taken : (n : ℕ) → Queues owed (on_pool (take_buffer m n) >>= λ b. read_overlapped os b)
  Queues-taken n =
      Queues-bind owed (on_pool (take_buffer m n)) (λ b. read_overlapped os b)
        (Quiet-on_pool owed (take_buffer m n))
        (λ c. unfold on_pool in take_buffer-IsSure m n c.handle.pool) Queues-read_overlapped

  pub take_filled-IsSure :
      (bytes : List ℕ) (c : Ctx W) → IsSure (take_filled {W = W} os m bytes c).0
  unfolding take_filled ◌>>=◌ on_pool
  take_filled-IsSure bytes c =
      continue-IsSure (take_buffer m (length bytes) c.handle.pool).0 _ _
        (take_buffer-IsSure m (length bytes) c.handle.pool)
        (λ b d. put_slice-IsSure m b bytes d.handle.pool)

  pub Queues-prepare : (op : Operation) → Queues owed (prepare os m op)
  unfolding prepare
  Queues-prepare (write bytes) =
      Queues-bind owed (take_filled os m bytes) _ (Quiet-take_filled bytes)
        (take_filled-IsSure bytes)
        (λ _. Queues-done owed (write_overlapped os bytes) (Queues-write_overlapped bytes))
  Queues-prepare (read buf) = Queues-taken (length buf)
  Queues-prepare connect_named_pipe = Queues-connect_overlapped
  Queues-prepare (device_io_ctl control bytes) =
      Queues-bind owed (take_filled os m bytes) _ (Quiet-take_filled bytes)
        (take_filled-IsSure bytes)
        (λ _.
          Queues-done owed (device_io_control_overlapped os control bytes)
            (Queues-device_io_control_overlapped control bytes))

  -- Once an operation has completed, nothing that its poll does is queued.
  pub Quiet-finish_operation : (op : Operation) → Quiet owed (finish_operation os m op)
  unfolding finish_operation
  Quiet-finish_operation op =
      search (Quiet-bind, Quiet-pure, Quiet-handle_result, Quiet-collect, Quiet-apply_to)

  pub Quiet-finish_read : (room : List ℕ) → Quiet owed (finish_read os m room)
  unfolding finish_read
  Quiet-finish_read room =
      search (
        Quiet-bind, Quiet-pure, Quiet-on_pool, Quiet-advance, Quiet-handle_result, Quiet-put_filled,
      )

  pub Quiet-finish_write : Quiet owed (finish_write os m)
  unfolding finish_write
  Quiet-finish_write = search (Quiet-bind, Quiet-pure, Quiet-advance, Quiet-handle_result)
