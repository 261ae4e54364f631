-- ===== src/Handle/Cursor.antt =====
-- `LockGuard::advance`: the 64-bit cursor in the two halves of an `OVERLAPPED`.
use aiocp.Prelude.{ℕ, ◌+◌, ◌*◌, ◌/◌, ◌%◌, ◌^◌, ◌<◌, ◌≡◌, ap, arith, lt→ltb, ==-refl}
use aiocp.Prelude.Bits.{bit_or-shifted, bit_and_mask}
use aiocp.Io.{ok}
use aiocp.Task.{Header}
use aiocp.Handle.Defs.{Ctx, own_header}
use aiocp.Handle.Guard.{advance, cursor}

-- Both halves fit a `u32`.
pub record IsCursor (h : Header) : Type 0 where
  pub low : h.offset < 2 ^ 32
  pub high : h.offset_high < 2 ^ 32

pub cursor_lem : (h : Header) → IsCursor h → cursor h ≡ h.offset + h.offset_high * 2 ^ 32
cursor_lem h v = bit_or-shifted 32 h.offset h.offset_high v.low

abbrev moved : ℕ → Header → Header
moved n h = record h { offset = n % 2 ^ 32; offset_high = n / 2 ^ 32 }

moved-IsCursor : (n : ℕ) (h : Header) → n < 2 ^ 64 → IsCursor (moved n h)
moved-IsCursor n h small = record { low = omega arith; high = omega arith }

cursor-moved : (n : ℕ) (h : Header) → n < 2 ^ 64 → cursor (moved n h) ≡ n
cursor-moved n h small = omega (arith, cursor_lem (moved n h) (moved-IsCursor n h small))

module _ {W : Type 0} where
  advance-fits :
      (amount : ℕ) (c : Ctx W)
      → cursor (own_header c) + amount < 2 ^ 64
      → own_header (advance amount c).1 ≡ record (own_header c) {
        offset = (cursor (own_header c) + amount) % 2 ^ 32;
        offset_high = (cursor (own_header c) + amount) / 2 ^ 32;
      }
  unfolding advance
  advance-fits amount c fits =
      rw (lt→ltb _ _ fits)
        (rw (==-refl c.handle.header) (rw (bit_and_mask 32 (cursor (own_header c) + amount))))

  advance_ok :
      (amount : ℕ) (c : Ctx W)
      → cursor (own_header c) + amount < 2 ^ 64
      → (advance amount c).0 ≡ ok tt
  unfolding advance
  advance_ok amount c fits = rw (lt→ltb _ _ fits)

  -- Where the sum fits 64 bits, `advance` succeeds and moves the cursor by exactly the amount; both
  -- halves stay in 32 bits, and the lock and the count of the header are kept.
  pub advance-cursor :
      (amount : ℕ) (c : Ctx W)
      → cursor (own_header c) + amount < 2 ^ 64
      → ((advance amount c).0 ≡ ok tt)
        × (cursor (own_header (advance amount c).1) ≡ cursor (own_header c) + amount)
        × IsCursor (own_header (advance amount c).1)
        × ((own_header (advance amount c).1).lock ≡ (own_header c).lock)
        × ((own_header (advance amount c).1).strong ≡ (own_header c).strong)
  advance-cursor amount c fits = (
    advance_ok amount c fits,
    rw (advance-fits amount c fits)
        (cursor-moved (cursor (own_header c) + amount) (own_header c) fits),
    rw (advance-fits amount c fits)
        (moved-IsCursor (cursor (own_header c) + amount) (own_header c) fits),
    ap (λ h. h.lock) (advance-fits amount c fits),
    ap (λ h. h.strong) (advance-fits amount c fits),
  )
