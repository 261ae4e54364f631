-- ===== src/Handle/Cancel.antt =====
-- `Handle::cancel_if_pending`: it makes the one call, or does nothing.
use aiocp.Prelude.{◌≡◌, refl, ◌⊎◌, inl, inr, Bool-cases}
use aiocp.Prelude.Int.{is_pos}
use aiocp.Os.{Os}
use aiocp.Task
use aiocp.Handle.Defs.{Ctx, own_header}
use aiocp.Handle.Guard.{cancel_if_pending, cancel_immediate}

module _ {W : Type 0} (os : Os W) where
  pub cancel_if_pending-either :
      (c : Ctx W) → (cancel_if_pending os c ≡ cancel_immediate os c) ⊎ (cancel_if_pending os c ≡ c)
  unfolding cancel_if_pending Task.state
  cancel_if_pending-either c = elim (Bool-cases (is_pos (own_header c).lock)) [
    | inl e ↦ inl (rw (e, cancel_if_pending) refl)
    | inr e ↦ inr (rw (e, cancel_if_pending) refl)
  ]
