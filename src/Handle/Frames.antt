-- ===== src/Handle/Frames.antt =====
-- What the body of a guard leaves alone: the port, the other headers, and of its own header the lock
-- and the strong count. One rule for each way to build an action.
use aiocp.Prelude.{ℕ, ◌≡◌, ◌≢◌, refl, ◌∙◌, arith, if◌then◌else◌, Bool, true, false, List}
use aiocp.Io.{Outcome, ok, err, panic, OverlappedResult}
use aiocp.Os.{Os, Memory}
use aiocp.Pool.BufferPool.{BufferPool, ReadBuf}
use aiocp.Handle.Defs.{
  Ctx, M, ◌>>=◌, pure, unwind, on_pool, own_header, continue, set_world, set_header,
}
use aiocp.Task.{Header}
use aiocp.Handle.Guard.{advance, handle_result}
use aiocp.Handle.Ext.{
  read_overlapped, write_overlapped, connect_overlapped, device_io_control_overlapped,
}
use aiocp.Handle.Operation.{
  Operation, write, read, connect_named_pipe, device_io_ctl, take_filled, prepare, collect,
  apply_to, OverlappedOutcome, unchanged, advances, copied,
}

pub record Keeps {W : Type 0} (c c' : Ctx W) : Type 0 where
  pub port : c'.shared.port ≡ c.shared.port
  pub raw : c'.handle.raw ≡ c.handle.raw
  pub header : c'.handle.header ≡ c.handle.header
  pub others : (b : ℕ) → b ≢ c.handle.header → c'.shared.heap b ≡ c.shared.heap b
  pub lock : (own_header c').lock ≡ (own_header c).lock
  pub strong : (own_header c').strong ≡ (own_header c).strong

pub record Frames {W A : Type 0} (m : M W A) : Type 0 where
  pub at : (c : Ctx W) → Keeps c (m c).1

module _ {W : Type 0} where
  Keeps-refl : (c : Ctx W) → Keeps c c
  Keeps-refl c = record {
    port = refl;
    raw = refl;
    header = refl;
    others = λ b h. refl;
    lock = refl;
    strong = refl;
  }

  Keeps-trans : (a b c : Ctx W) → Keeps a b → Keeps b c → Keeps a c
  Keeps-trans a b c h k = record {
    port = k.port ∙ h.port;
    raw = k.raw ∙ h.raw;
    header = k.header ∙ h.header;
    others = λ x ne. k.others x (λ e. ne (e ∙ h.header)) ∙ h.others x ne;
    lock = k.lock ∙ h.lock;
    strong = k.strong ∙ h.strong;
  }

  pub world-Keeps : (w : W) (c : Ctx W) → Keeps c (set_world w c)
  world-Keeps w c = record {
    port = refl;
    raw = refl;
    header = refl;
    others = λ b h. refl;
    lock = refl;
    strong = refl;
  }

  header-Keeps :
      (h : Header) (c : Ctx W)
      → h.lock ≡ (own_header c).lock
      → h.strong ≡ (own_header c).strong
      → Keeps c (set_header h c)
  header-Keeps h c p q = record {
    port = refl;
    raw = refl;
    header = refl;
    others = λ b ne. ground arith;
    lock = ground arith;
    strong = ground arith;
  }

  if-Keeps :
      {A : Type 0} (b : Bool) (x y : Outcome A × Ctx W) (c : Ctx W)
      → Keeps c x.1
      → Keeps c y.1
      → Keeps c (if b then x else y).1
  if-Keeps true x y c hx hy = hx
  if-Keeps false x y c hx hy = hy

  pub Frames-pure : {A : Type 0} (a : A) → Frames {W = W} (pure a)
  unfolding pure
  Frames-pure a = record { at = λ c. Keeps-refl c }

  pub Frames-unwind : {A : Type 0} → Frames {W = W} {A = A} unwind
  unfolding unwind
  Frames-unwind = record { at = λ c. Keeps-refl c }

  pub Frames-on_pool :
      {A : Type 0} (f : BufferPool → Outcome A × BufferPool) → Frames {W = W} (on_pool f)
  unfolding on_pool
  Frames-on_pool f = record {
    at = λ c. record {
      port = refl;
      raw = refl;
      header = refl;
      others = λ b h. refl;
      lock = refl;
      strong = refl;
    };
  }

  continue-Keeps :
      {A B : Type 0} (r : Outcome A) (f : A → M W B) (b c : Ctx W)
      → Keeps b c
      → ((a : A) → Frames (f a))
      → Keeps b (continue r f c).1
  continue-Keeps (ok a) f b c h ff = Keeps-trans b c (f a c).1 h ((ff a).at c)
  continue-Keeps (err e) f b c h ff = h
  continue-Keeps panic f b c h ff = h

  pub Frames-bind :
      {A B : Type 0} (m : M W A) (f : A → M W B)
      → Frames m
      → ((a : A) → Frames (f a))
      → Frames (m >>= f)
  unfolding ◌>>=◌
  Frames-bind m f fm ff = record { at = λ c. continue-Keeps (m c).0 f c (m c).1 (fm.at c) ff }

  pub Frames-if :
      {A : Type 0} (b : Bool) (m n : M W A) → Frames m → Frames n → Frames (if b then m else n)
  Frames-if true m n fm fn = fm
  Frames-if false m n fm fn = fn

  -- The cursor moves; the lock and the count of the header do not.
  pub Frames-advance : (n : ℕ) → Frames {W = W} (advance n)
  unfolding advance
  Frames-advance n = record {
    at = λ c. if-Keeps _ _ _ c (header-Keeps _ c refl refl) (Keeps-refl c);
  }

pub ruleset frame_rules =
    (Frames-pure, Frames-unwind, Frames-on_pool, Frames-bind, Frames-if, Frames-advance)

module _ {W : Type 0} where
  pub Frames-apply_to : (o : OverlappedOutcome) → Frames {W = W} (apply_to o)
  unfolding apply_to
  Frames-apply_to unchanged = search frame_rules
  Frames-apply_to (advances n) = search frame_rules

  Frames-copied : (buf bytes : List ℕ) → Frames (copied {W = W} buf bytes)
  unfolding copied
  Frames-copied buf bytes = search frame_rules

  -- So does collecting its result.
  pub Frames-collect : (op : Operation) (r : OverlappedResult) → Frames (collect {W = W} op r)
  unfolding collect
  Frames-collect (write bytes) r = search frame_rules
  Frames-collect (read buf) r = search (frame_rules, Frames-copied)
  Frames-collect connect_named_pipe r = search frame_rules
  Frames-collect (device_io_ctl control bytes) r = search frame_rules

module _ {W : Type 0} (os : Os W) where
  pub Frames-handle_result : Frames (handle_result os)
  unfolding handle_result
  Frames-handle_result = record { at = λ c. world-Keeps _ c }

  pub Frames-read_overlapped : (r : ReadBuf) → Frames (read_overlapped os r)
  unfolding read_overlapped
  Frames-read_overlapped r = record { at = λ c. world-Keeps _ c }

  pub Frames-write_overlapped : (bytes : List ℕ) → Frames (write_overlapped os bytes)
  unfolding write_overlapped
  Frames-write_overlapped r = record { at = λ c. world-Keeps _ c }

  pub Frames-connect_overlapped : Frames (connect_overlapped os)
  unfolding connect_overlapped
  Frames-connect_overlapped = record { at = λ c. world-Keeps _ c }

  pub Frames-device_io_control_overlapped :
      (control : ℕ) (bytes : List ℕ) → Frames (device_io_control_overlapped os control bytes)
  unfolding device_io_control_overlapped
  Frames-device_io_control_overlapped control bytes = record {
    at = λ c. search (if-Keeps, Keeps-refl, world-Keeps);
  }

pub ruleset os_rules = (
  frame_rules, Frames-handle_result, Frames-read_overlapped, Frames-write_overlapped,
  Frames-connect_overlapped, Frames-device_io_control_overlapped,
)

module _ {W : Type 0} (os : Os W) (m : Memory) where
  pub Frames-take_filled : (bytes : List ℕ) → Frames (take_filled {W = W} os m bytes)
  unfolding take_filled
  Frames-take_filled bytes = search os_rules

  -- Starting an operation leaves the port, the lock and the counts alone, however it ends.
  pub Frames-prepare : (op : Operation) → Frames (prepare os m op)
  unfolding prepare
  Frames-prepare (write bytes) = search (os_rules, Frames-take_filled)
  Frames-prepare (read buf) = search os_rules
  Frames-prepare connect_named_pipe = search os_rules
  Frames-prepare (device_io_ctl control bytes) = search (os_rules, Frames-take_filled)
