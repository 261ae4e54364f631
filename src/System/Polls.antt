-- ===== src/System/Polls.antt =====
-- A poll of any handle keeps the books.
use aiocp.Prelude.{ℕ, ◌+◌, ◌^◌, ◌<◌, ◌≡◌, ◌≢◌, sym, ap, ◌∙◌, inl, inr, List, length, count, arith}
use native.Mathlib.Decide.{ℕ_discrete}
use aiocp.Handle.{Ctx}
use aiocp.Handle.Balance.{Moved}
use aiocp.Handle.Accounts.{Accounts}
use aiocp.System.{System, ctx_of, put_ctx}
use aiocp.System.Invariant.{Books, Inv}

module _ {W : Type 0} (owed : W → List ℕ) where
  -- A step of handle `i` that moves permits, and `n` counts, and the debt by as many packets.
  pub record Charge (permits n i : ℕ) (s : System W) (c' : Ctx W) : Type 0 where
    pub moved : Moved permits n (ctx_of s i) c'
    pub total : length (owed c'.shared.world) ≡ length (owed s.shared.world) + n
    pub own :
        count (s.handles i).header (owed c'.shared.world)
        ≡ count (s.handles i).header (owed s.shared.world) + n
    pub others :
        (a : ℕ)
        → a ≢ (s.handles i).header
        → count a (owed c'.shared.world) ≡ count a (owed s.shared.world)

  Charge-header :
      (permits n i : ℕ) (s : System W) (c' : Ctx W) (j : ℕ)
      → Charge permits n i s c'
      → ((put_ctx s i c').handles j).header ≡ (s.handles j).header
  Charge-header permits n i s c' j h = ground (arith, h.moved.header)

  pub Charge-Books :
      (permits n i : ℕ) (s : System W) (c' : Ctx W)
      → Charge permits n i s c'
      → Books owed s
      → Books owed (put_ctx s i c')
  Charge-Books permits n i s c' h v = record {
    held = λ j a e.
        let old = v.held j a (sym (Charge-header permits n i s c' j h) ∙ e) in
        elim (ℕ_discrete a (s.handles i).header) [
          | yes p ↦
              let here : (c'.shared.heap (s.handles i).header).strong
                  ≡ (s.shared.heap (s.handles i).header).strong + n =
                ap (λ x. (c'.shared.heap x).strong) (sym h.moved.header) ∙ h.moved.counts_out in
              ground (arith, p, here, h.own, old)
          | no p ↦ omega (arith, ap (λ x. x.strong) (h.moved.others a p), h.others a p, old)
        ];
    distinct = λ j k e.
        v.distinct j k
          (sym (Charge-header permits n i s c' j h) ∙ e ∙ Charge-header permits n i s c' k h);
    known = λ a pos. elim (ℕ_discrete a (s.handles i).header) [
      | yes p ↦ (i, Charge-header permits n i s c' i h ∙ sym p)
      | no p ↦
          let (j, e) = v.known a (omega (arith, h.others a p)) in
          (j, Charge-header permits n i s c' j h ∙ e)
    ];
  }

  Charge-Inv :
      (n i : ℕ) (s : System W) (c' : Ctx W)
      → s.shared.port.pending + n < 2 ^ 64
      → Charge n n i s c'
      → Inv owed s
      → Inv owed (put_ctx s i c')
  Charge-Inv n i s c' room h v = record {
    counted = omega (arith, h.moved.permits_out, h.total, v.counted);
    books = Charge-Books n n i s c' h v.books;
  }

  -- One that moves no count and leaves the debts as they are.
  pub Moved-Charge :
      (permits i : ℕ) (s : System W) (c' : Ctx W)
      → Moved permits 0 (ctx_of s i) c'
      → owed c'.shared.world ≡ owed s.shared.world
      → Charge permits 0 i s c'
  Moved-Charge permits i s c' h e = record {
    moved = h;
    total = omega (arith, ap length e);
    own = omega (arith, ap (count (s.handles i).header) e);
    others = λ a ne. ap (count a) e;
  }

  -- What a poll reports is such a charge, of nothing or of one.
  pub Accounts-Inv :
      (i : ℕ) (s : System W) (c' : Ctx W)
      → s.shared.port.pending + 1 < 2 ^ 64
      → Accounts owed (ctx_of s i) c'
      → Inv owed s
      → Inv owed (put_ctx s i c')
  Accounts-Inv i s c' room (inl (h, e)) v =
      Charge-Inv 0 i s c' (omega arith) (Moved-Charge 0 i s c' h e) v
  Accounts-Inv i s c' room (inr (h, e)) v =
      Charge-Inv 1 i s c' room
        (record {
          moved = h;
          total = omega (arith, ap length e);
          own = rw e (ground arith);
          others = λ a ne. rw e (ground arith);
        })
        v
