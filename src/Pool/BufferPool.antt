-- ===== src/Pool/BufferPool.antt =====
-- src/pool/buffer_pool.rs: the buffers that a handle lends to the operation in flight.
pub mod Laws
pub mod Fill
use aiocp.Prelude.{
  ℕ, suc, ◌+◌, ◌-◌, ◌*◌, min, Option, none, some, List, [], ◌∷◌, ◌++◌, length, get_elem?, set, take,
  drop, replicate, ltb, leb, if◌then◌else◌,
}
use aiocp.Io.{Outcome, ok, err, panic}
use aiocp.Os.{Memory}

-- A `Vec<u8>`: its length, and the block that it owns. The capacity is the length of the block.
pub record Buffer : Type 0 where
  pub len : ℕ
  pub memory : List ℕ

abbrev pub capacity : Buffer → ℕ
capacity b = length b.memory

pub record BufferPool : Type 0 where
  pub buffers : List Buffer
  pub taken : ℕ
  pub released : ℕ
  pub max_buffer_size : ℕ

-- The unfilled `ReadBuf` over the first `size` bytes of the buffer at `index`.
pub record ReadBuf : Type 0 where
  pub index : ℕ
  pub size : ℕ

-- `BufferPool::new`, with `vec![vec![0u8; 64]]`
unfoldable pub new : ℕ → BufferPool
new max_buffer_size = record {
  buffers = record { len = 64; memory = replicate 64 0 } ∷ [];
  taken = 0;
  released = 0;
  max_buffer_size = max_buffer_size;
}

-- `BufferPool::clear`
unfoldable pub clear : BufferPool → BufferPool
clear p = record p { taken = 0; released = 0 }

module _ (m : Memory) where
  -- `if buf.capacity() < size { buf.reserve(size - buf.capacity()); }`
  unfoldable pub ensure : ℕ → Buffer → Buffer
  ensure size b =
      if ltb (capacity b) size
      then record b { memory = m.reserve b.len b.memory (size - capacity b) }
      else b

  -- `if taken >= buffers.len() { buffers.push(Vec::with_capacity(size)); }`
  unfoldable pub grow : ℕ → ℕ → List Buffer → List Buffer
  grow taken size buffers =
      if leb (length buffers) taken
      then buffers ++ record { len = 0; memory = m.with_capacity size } ∷ []
      else buffers

  -- The buffer is fetched, made large enough, and cut: the indexing and the cut may panic.
  unfoldable pub take_at : ℕ → ℕ → BufferPool → Option Buffer → Outcome ReadBuf × BufferPool
  unfolding ensure
  take_at size i p none = (panic, p)
  take_at size i p (some b) =
      let b' = ensure size b in
      let p' = record p { buffers = set p.buffers i b' } in
      if leb size (capacity b') then (ok (record { index = i; size = size }), p') else (panic, p')

  -- `BufferPool::take`
  unfoldable pub take_buffer : ℕ → BufferPool → Outcome ReadBuf × BufferPool
  unfolding grow take_at
  take_buffer requested p =
      let size = min requested p.max_buffer_size in
      let p' = record p { buffers = grow p.taken size p.buffers; taken = p.taken + 1 } in
      take_at size p.taken p' (get_elem? p'.buffers p.taken)

  unfoldable pub put_at :
      ReadBuf → List ℕ → BufferPool → Buffer → Option (List ℕ) → Outcome (Unit {0}) × BufferPool
  put_at r bytes p b none = (panic, p)
  put_at r bytes p b (some slice) = (
    ok tt,
    record p {
      buffers = set p.buffers r.index (record b { memory = slice ++ drop r.size b.memory });
    },
  )

  unfoldable pub put_in :
      ReadBuf → List ℕ → BufferPool → Option Buffer → Outcome (Unit {0}) × BufferPool
  unfolding put_at
  put_in r bytes p none = (panic, p)
  put_in r bytes p (some b) = put_at r bytes p b (m.put_slice (take r.size b.memory) bytes)

  -- `ReadBuf::put_slice` on a buffer of the pool that has nothing filled yet.
  unfoldable pub put_slice : ReadBuf → List ℕ → BufferPool → Outcome (Unit {0}) × BufferPool
  unfolding put_in
  put_slice r bytes p = put_in r bytes p (get_elem? p.buffers r.index)

unfoldable pub release_from : ℕ → BufferPool → Option Buffer → Outcome (List ℕ) × BufferPool
release_from len p none = (panic, p)
release_from len p (some b) =
    if leb len (capacity b) then (ok (take len b.memory), p) else (panic, p)

-- `BufferPool::release`, with the bytes that the returned `ReadBuf` has filled.
unfoldable pub release : ℕ → BufferPool → Outcome (List ℕ) × BufferPool
unfolding release_from
release len p =
    let p' = record p { released = p.released + 1 } in
    if ltb p.released p.taken
    then release_from len p' (get_elem? p.buffers p.released)
    else (panic, p')
