-- ===== src/Tests/Pools.antt =====
-- Tests of the two pools.
use aiocp.Prelude.{ℕ, ◌≡◌, refl, inr, List, [], ◌∷◌, arith, replicate}
use aiocp.Io.{ok, panic}
use aiocp.Os.{success, failure}
use aiocp.Pool.BufferPool.{BufferPool, ReadBuf, take_buffer, put_slice}
use aiocp.Pool.BufferPool.Laws.{Took, take_buffer-Took, take_buffer-gap}
use aiocp.Pool.BufferPool.Fill.{Roundtrip, release-put_slice, put_slice-over_max}
use aiocp.Pool.SocketPool.{Winsock, SocketPool, clear, take_socket}
use aiocp.Pool.SocketPool.Reuse.{IsValid, take_socket-clear}
use aiocp.Tests.System.{zeros, zeros_lem}

-- A pool with one small buffer of zeros, and one whose buffer has been allocated but not filled.
abbrev small : BufferPool
small = record {
  buffers = record { len = 2; memory = 0 ∷ 0 ∷ [] } ∷ [];
  taken = 0;
  released = 0;
  max_buffer_size = 4;
}

abbrev allocated : BufferPool
allocated = record {
  buffers = record { len = 0; memory = 0 ∷ 0 ∷ [] } ∷ [];
  taken = 0;
  released = 0;
  max_buffer_size = 4;
}

take_buffer-Took_example : Took 3 small (take_buffer zeros 3 small)
take_buffer-Took_example = take_buffer-Took zeros zeros_lem 3 small (inr (_, refl, inr refl))

take_buffer-gap_example : (take_buffer zeros 4 allocated).0 ≡ panic
take_buffer-gap_example =
    take_buffer-gap zeros zeros_lem 4 allocated (record { len = 0; memory = 0 ∷ 0 ∷ [] }) refl
      (omega arith) (omega arith)

release-put_slice_example : Roundtrip zeros zeros_lem (7 ∷ 8 ∷ 9 ∷ []) small
release-put_slice_example =
    release-put_slice zeros zeros_lem (7 ∷ 8 ∷ 9 ∷ []) small (inr (_, refl, inr refl)) (omega arith)
      refl

abbrev long : List ℕ
long = replicate 5 1

put_slice-over_max_example :
    (r : ReadBuf) × ((take_buffer zeros 5 small).0 ≡ ok r)
    × ((put_slice zeros r long (take_buffer zeros 5 small).1).0 ≡ panic)
put_slice-over_max_example =
    put_slice-over_max zeros zeros_lem long small (inr (_, refl, inr refl)) (omega arith)

-- Sockets are numbered as they are made, and the closed ones are listed.
abbrev winsock : Winsock (List ℕ)
winsock = record {
  wsa_socket = λ info closed. (success 9, closed);
  closesocket = λ s closed. s ∷ closed;
  wsa_duplicate_socket = λ s closed. (success s, closed);
  accept_ex = λ s t b n k a closed. (failure 997, closed);
}

abbrev listening : SocketPool
listening = record { sockets = 5 ∷ 6 ∷ []; taken = 2; released = 1; info = 1 }

listening-IsValid : IsValid listening
listening-IsValid = record { in_order = omega arith; in_list = omega arith }

take_socket-clear_example :
    (p' : SocketPool) × (w' : List ℕ) × (clear winsock listening [] ≡ ok (p', w'))
    × (take_socket winsock p' w' ≡ (ok 5, record p' { taken = 1 }, w'))
take_socket-clear_example = take_socket-clear winsock listening [] 5 (6 ∷ []) listening-IsValid refl
