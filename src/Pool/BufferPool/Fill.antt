-- ===== src/Pool/BufferPool/Fill.antt =====
-- Bytes that are put into a taken buffer come back when the buffer is released.
use aiocp.Prelude.{
  ℕ, ◌+◌, ◌≤◌, ◌<◌, ◌≡◌, ap, ◌∙◌, some, List, ◌++◌, length, get_elem?, set, take, drop, arith,
  get_elem?-set_self, get_elem?-lt, length-append, take-append, length-take, length-drop, le→leb,
  lt→ltb,
}
use mathlib.Core.List.{append_assoc}
use aiocp.Io.{ok, panic}
use aiocp.Os.{Memory, MemoryLaws}
use aiocp.Pool.BufferPool.{
  Buffer, BufferPool, ReadBuf, capacity, take_buffer, put_slice, put_at, put_in, release,
}
use aiocp.Pool.BufferPool.Laws.{CanTake, granted, Took, take_buffer-Took}

-- The block of a buffer after bytes were put into its first `size` bytes.
abbrev pub overwritten : ℕ → List ℕ → Buffer → Buffer
overwritten size bytes b = record b {
  memory = (bytes ++ drop (length bytes) (take size b.memory)) ++ drop size b.memory;
}

pub take-overwritten :
    (size : ℕ) (bytes : List ℕ) (b : Buffer)
    → take (length bytes) (overwritten size bytes b).memory ≡ bytes
take-overwritten size bytes b = rw append_assoc (take-append bytes _)

pub capacity-overwritten :
    (size : ℕ) (bytes : List ℕ) (b : Buffer)
    → size ≤ capacity b
    → length bytes ≤ size
    → capacity (overwritten size bytes b) ≡ capacity b
capacity-overwritten size bytes b room fits = omega (
  arith,
  length-append (bytes ++ drop (length bytes) (take size b.memory)) (drop size b.memory),
  length-append bytes (drop (length bytes) (take size b.memory)),
  length-drop (length bytes) (take size b.memory),
  length-drop size b.memory,
  length-take size b.memory,
)

pub release_lem :
    (len : ℕ) (p : BufferPool) (b : Buffer)
    → p.released < p.taken
    → get_elem? p.buffers p.released ≡ some b
    → len ≤ capacity b
    → release len p ≡ (ok (take len b.memory), record p { released = p.released + 1 })
unfolding release
release_lem len p b lent there fits =
    rw (lt→ltb p.released p.taken lent) (rw there (rw (le→leb len (capacity b) fits)))

module _ (m : Memory) (laws : MemoryLaws m) where
  pub put_slice_lem :
      (r : ReadBuf) (bytes : List ℕ) (p : BufferPool) (b : Buffer)
      → get_elem? p.buffers r.index ≡ some b
      → r.size ≤ capacity b
      → length bytes ≤ r.size
      → put_slice m r bytes p
        ≡ (ok tt, record p { buffers = set p.buffers r.index (overwritten r.size bytes b) })
  unfolding put_slice put_in put_at
  put_slice_lem r bytes p b there room fits = rw there (
      rw (
        laws.put_slice_fits (take r.size b.memory) bytes
          (omega (arith, length-take r.size b.memory))))

  pub put_slice-panic :
      (r : ReadBuf) (bytes : List ℕ) (p : BufferPool) (b : Buffer)
      → get_elem? p.buffers r.index ≡ some b
      → r.size < length bytes
      → (put_slice m r bytes p).0 ≡ panic
  unfolding put_slice put_in put_at
  put_slice-panic r bytes p b there over = rw there (
      rw (
        laws.put_slice_over (take r.size b.memory) bytes
          (omega (arith, length-take r.size b.memory))))

  -- What filling a buffer and releasing it again gives.
  pub record Roundtrip (bytes : List ℕ) (p : BufferPool) : Type 0 where
    pub lent : ReadBuf
    pub took : (take_buffer m (length bytes) p).0 ≡ ok lent
    pub put : (put_slice m lent bytes (take_buffer m (length bytes) p).1).0 ≡ ok tt
    pub back :
        (release (length bytes) (put_slice m lent bytes (take_buffer m (length bytes) p).1).1).0
        ≡ ok bytes

  -- On a pool with nothing lent out whose first buffer can be made to fit, bytes that are no more
  -- than the pool's maximum go in and come out again: taking, putting and releasing all succeed, and
  -- the release gives the same bytes.
  pub release-put_slice :
      (bytes : List ℕ) (p : BufferPool)
      → CanTake (granted (length bytes) p) p
      → length bytes ≤ p.max_buffer_size
      → p.released ≡ p.taken
      → Roundtrip bytes p
  release-put_slice bytes p can small none_lent = record {
    lent = r;
    took = t.lent;
    put = ap (λ x. x.0) filled;
    back =
        ap (λ x. (release (length bytes) x.1).0) filled
        ∙ ap (λ x. x.0) (release_lem (length bytes) p2 b' lent_out there room)
        ∙ ap ok (take-overwritten r.size bytes t.buffer);
  }
    where
      t : Took (length bytes) p (take_buffer m (length bytes) p)
      t = take_buffer-Took m laws (length bytes) p can

      r : ReadBuf
      r = record { index = p.taken; size = granted (length bytes) p }

      p1 : BufferPool
      p1 = (take_buffer m (length bytes) p).1

      b' : Buffer
      b' = overwritten r.size bytes t.buffer

      p2 : BufferPool
      p2 = record p1 { buffers = set p1.buffers p.taken b' }

      filled : put_slice m r bytes p1 ≡ (ok tt, p2)
      filled = put_slice_lem r bytes p1 t.buffer t.there t.room (omega arith)

      first : p1.released ≡ p.taken
      first = t.released ∙ none_lent

      lent_out : p1.released < p1.taken
      lent_out = omega (arith, first, t.counted)

      there : get_elem? p2.buffers p1.released ≡ some b'
      there = rw first (get_elem?-set_self p1.buffers p.taken b' (get_elem?-lt _ _ _ t.there))

      room : length bytes ≤ capacity b'
      room = omega (arith, t.room, capacity-overwritten r.size bytes t.buffer t.room (omega arith))

  -- More bytes than the pool's maximum: the buffer that is lent is cut at the maximum, and putting
  -- the bytes into it panics.
  pub put_slice-over_max :
      (bytes : List ℕ) (p : BufferPool)
      → CanTake (granted (length bytes) p) p
      → p.max_buffer_size < length bytes
      → (r : ReadBuf) × ((take_buffer m (length bytes) p).0 ≡ ok r)
        × ((put_slice m r bytes (take_buffer m (length bytes) p).1).0 ≡ panic)
  put_slice-over_max bytes p can over =
      let t : Took (length bytes) p (take_buffer m (length bytes) p) =
        take_buffer-Took m laws (length bytes) p can in
      (
        record { index = p.taken; size = granted (length bytes) p },
        t.lent,
        put_slice-panic _ bytes _ t.buffer t.there (omega arith),
      )
