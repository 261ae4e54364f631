-- ===== src/Pool/BufferPool/Laws.antt =====
-- Proofs about the buffer pool: what is taken, filled and released again.
use aiocp.Prelude.{
  ℕ, ◌+◌, ◌-◌, ◌≤◌, ◌<◌, ◌≡◌, refl, ◌⊎◌, inl, inr, min, some, List, length, get_elem?, arith,
  get_elem?-append_last, get_elem?-set_self, get_elem?-lt, lt→leb, le→leb, lt→ltb,
}
use aiocp.Io.{Outcome, ok, panic}
use aiocp.Os.{Memory, MemoryLaws}
use aiocp.Pool.BufferPool.{
  Buffer, BufferPool, ReadBuf, capacity, ensure, grow, take_at, take_buffer,
}

-- A buffer that `take` can make large enough: by its capacity, or since its length is its capacity,
-- as it is of a new vector of zeros.
abbrev pub Fits : ℕ → Buffer → Type 0
Fits size b = (size ≤ capacity b) ⊎ (b.len ≡ capacity b)

-- Where the next buffer comes from: it is there and fits, or it is made.
abbrev pub CanTake : ℕ → BufferPool → Type 0
CanTake size p =
    (p.taken ≡ length p.buffers)
    ⊎ ((b : Buffer) × (get_elem? p.buffers p.taken ≡ some b) × Fits size b)

abbrev pub granted : ℕ → BufferPool → ℕ
granted requested p = min requested p.max_buffer_size

-- What a successful `take` has done.
pub record Took (requested : ℕ) (p : BufferPool) (r : Outcome ReadBuf × BufferPool) : Type 0 where
  pub lent : r.0 ≡ ok (record { index = p.taken; size = granted requested p })
  pub buffer : Buffer
  pub there : get_elem? r.1.buffers p.taken ≡ some buffer
  pub room : granted requested p ≤ capacity buffer
  pub counted : r.1.taken ≡ p.taken + 1
  pub released : r.1.released ≡ p.released
  pub max_buffer_size : r.1.max_buffer_size ≡ p.max_buffer_size

module _ (m : Memory) (laws : MemoryLaws m) where
  ensure-room : (size : ℕ) (b : Buffer) → Fits size b → size ≤ capacity (ensure m size b)
  unfolding ensure
  ensure-room size b (inl h) = ground arith
  ensure-room size b (inr h) = ground (arith, laws.reserve-le b.len b.memory (size - capacity b))

  take_at-Took :
      (requested : ℕ) (p : BufferPool) (buffers : List Buffer) (b : Buffer)
      → get_elem? buffers p.taken ≡ some b
      → Fits (granted requested p) b
      → Took requested p (
          take_at m
            (granted requested p)
            p.taken
            (record p { buffers = buffers; taken = p.taken + 1 })
            (some b))
  unfolding take_at
  take_at-Took requested p buffers b there fits =
      let room : granted requested p ≤ capacity (ensure m (granted requested p) b) =
        ensure-room (granted requested p) b fits in
      rw (le→leb _ _ room) (record {
        lent = refl;
        buffer = ensure m (granted requested p) b;
        there = get_elem?-set_self buffers p.taken _ (get_elem?-lt buffers p.taken b there);
        room = room;
        counted = refl;
        released = refl;
        max_buffer_size = refl;
      })

  fresh_buffer : ℕ → Buffer
  fresh_buffer size = record { len = 0; memory = m.with_capacity size }

  take_buffer-fresh :
      (requested : ℕ) (p : BufferPool)
      → p.taken ≡ length p.buffers
      → get_elem? (grow m p.taken (granted requested p) p.buffers) p.taken
        ≡ some (fresh_buffer (granted requested p))
  unfolding grow fresh_buffer
  take_buffer-fresh requested p e = rw e (
      rw (le→leb (length p.buffers) (length p.buffers) (omega arith))
        (get_elem?-append_last p.buffers _))

  grow-there :
      (taken size : ℕ) (buffers : List Buffer) (b : Buffer)
      → get_elem? buffers taken ≡ some b
      → grow m taken size buffers ≡ buffers
  unfolding grow
  grow-there taken size buffers b there =
      rw (lt→leb (length buffers) taken (get_elem?-lt buffers taken b there))

  -- A buffer is lent when the next one can be made to fit: it has exactly the size that was asked
  -- for, cut at the pool's maximum, its block is at least that large, and the pool counts it.
  pub take_buffer-Took :
      (requested : ℕ) (p : BufferPool)
      → CanTake (granted requested p) p
      → Took requested p (take_buffer m requested p)
  unfolding take_buffer fresh_buffer
  take_buffer-Took requested p (inl e) = rw (take_buffer-fresh requested p e) (
      take_at-Took requested p _ _ (take_buffer-fresh requested p e)
        (inl (laws.with_capacity-le _)))
  take_buffer-Took requested p (inr (b, there, fits)) =
      rw (grow-there p.taken (granted requested p) p.buffers b there, there)
        (take_at-Took requested p p.buffers b there fits)

  -- The growth is asked for from the capacity, and `reserve` counts from the length. A buffer that is
  -- too small, and whose block still holds its length and the missing bytes, is left as it is: the
  -- cut to the size that was asked for panics.
  pub take_buffer-gap :
      (requested : ℕ) (p : BufferPool) (b : Buffer)
      → get_elem? p.buffers p.taken ≡ some b
      → capacity b < granted requested p
      → b.len + (granted requested p - capacity b) ≤ capacity b
      → (take_buffer m requested p).0 ≡ panic
  unfolding take_buffer take_at ensure
  take_buffer-gap requested p b there small kept =
      rw (grow-there p.taken (granted requested p) p.buffers b there, there)
        (rw (lt→ltb (capacity b) (granted requested p) small) (
          rw (laws.reserve_sufficient b.len b.memory (granted requested p - capacity b) kept)
            (rw (lt→leb (granted requested p) (capacity b) small))))
