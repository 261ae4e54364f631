-- ===== src/System/Others.antt =====
-- The steps that leave the counter and the debts alone: a handle is made or dropped, or the system
-- goes on by itself.
use aiocp.Prelude.{
  ℕ, zero, suc, ◌-◌, ◌≡◌, ◌≢◌, refl, sym, ap, ◌∙◌, true, false, List, count, ◌==◌, if◌then◌else◌,
  arith, Bool-cases, inl, inr,
}
use native.Mathlib.Decide.{ℕ_discrete}
use aiocp.Prelude.Int.{ℤ, pos, negsuc, is_pos}
use aiocp.Pool.SocketPool.{Winsock}
use aiocp.Os.{Os}
use aiocp.Kernel.{IsKernel, IsWinsock}
use aiocp.Task
use aiocp.Task.{Header}
use aiocp.Task.Lock.{Phase, submitted, phase, phase_of}
use aiocp.Handle.{Handle, Ctx, own_header}
use aiocp.Handle.Guard.{cancel_if_pending, cancel_immediate}
use aiocp.System.{
  System, ctx_of, drop_handle, OtherStep, registered, duplicated, socket_registered,
  socket_duplicated, dropped, external,
}
use aiocp.System.Invariant.{Books, Books-same, Kept}
use aiocp.System.Creation.{duplicated-Kept, registered-Kept}
use aiocp.System.Connections.{socket_duplicated-Kept, socket_registered-Kept}

module _ {W : Type 0} (os : Os W) where
  -- The call that the drop of a handle makes, by the phase of its header.
  abbrev pub asked_in : Phase → Handle → W → W
  asked_in (submitted code) h w = os.cancel_io_ex h.raw h.header w
  asked_in _ h w = w

  abbrev pub asked : Header → Handle → W → W
  asked header h w = asked_in (phase header) h w

  asked_word-submitted :
      (lock : ℤ) (h : Handle) (w : W)
      → is_pos lock ≡ true
      → asked_in (phase_of lock) h w ≡ os.cancel_io_ex h.raw h.header w
  asked_word-submitted (pos zero) h w e = cc
  asked_word-submitted (pos (suc code)) h w e = refl
  asked_word-submitted (negsuc code) h w e = cc

  asked_word-others :
      (lock : ℤ) (h : Handle) (w : W) → is_pos lock ≡ false → asked_in (phase_of lock) h w ≡ w
  asked_word-others (pos zero) h w e = refl
  asked_word-others (pos (suc code)) h w e = cc
  asked_word-others (negsuc code) h w e = refl

  asked-submitted :
      (header : Header) (h : Handle) (w : W)
      → is_pos header.lock ≡ true
      → asked header h w ≡ os.cancel_io_ex h.raw h.header w
  asked-submitted header = asked_word-submitted header.lock

  asked-others :
      (header : Header) (h : Handle) (w : W) → is_pos header.lock ≡ false → asked header h w ≡ w
  asked-others header = asked_word-others header.lock

module _ {W : Type 0} (os : Os W) (owed : W → List ℕ) (k : IsKernel os owed) where
  -- A cancellation changes the world only, by the call that the lock asks for, and not what is owed.
  record Cancelling (c c' : Ctx W) : Type 0 where
    port : c'.shared.port ≡ c.shared.port
    heap : c'.shared.heap ≡ c.shared.heap
    handle : c'.handle ≡ c.handle
    owes : owed c'.shared.world ≡ owed c.shared.world
    world : c'.shared.world ≡ asked os (own_header c) c.handle c.shared.world

  cancel-Cancelling : (c : Ctx W) → Cancelling c (cancel_if_pending os c)
  unfolding cancel_if_pending cancel_immediate Task.state
  cancel-Cancelling c = elim (Bool-cases (is_pos (own_header c).lock)) [
    | inl e ↦
        rw (e, cancel_if_pending)
          (record {
            port = refl;
            heap = refl;
            handle = refl;
            world = sym (asked-submitted os (own_header c) c.handle c.shared.world e);
            owes = k.cancel_io_ex_keeps c.handle.raw c.handle.header c.shared.world;
          })
    | inr e ↦
        rw (e, cancel_if_pending)
          (record {
            port = refl;
            heap = refl;
            handle = refl;
            world = sym (asked-others os (own_header c) c.handle c.shared.world e);
            owes = refl;
          })
  ]

  drop_handle-kept :
      (s : System W) (i : ℕ)
      → (owed (drop_handle os s i).shared.world ≡ owed s.shared.world)
        × ((drop_handle os s i).shared.port ≡ s.shared.port)
  unfolding drop_handle
  drop_handle-kept s i =
      ((cancel-Cancelling (ctx_of s i)).owes, (cancel-Cancelling (ctx_of s i)).port)

  drop_handle-strong :
      (s : System W) (i b : ℕ)
      → ((drop_handle os s i).shared.heap b).strong ≡ (
          if (s.handles i).header == b
          then (s.shared.heap b).strong - 1
          else (s.shared.heap b).strong)
  unfolding drop_handle
  drop_handle-strong s i b =
      let h = cancel-Cancelling (ctx_of s i) in ground (arith, h.heap, h.handle)

  dropped-Books :
      (i : ℕ) (s : System W) → s.alive i ≡ true → Books owed s → Books owed (drop_handle os s i)
  dropped-Books i s alive v =
      let d = drop_handle-kept s i in
      record {
        held = λ j b e.
            let same : (s.handles j).header ≡ b = unfold drop_handle in e in
            let gone : (drop_handle os s i).alive j ≡ (if i == j then false else s.alive j) =
              unfold drop_handle in refl in
            let strong = drop_handle-strong s i b in
            let debt = ap (count b) d.0 in
            let old = v.held j b same in
            elim (ℕ_discrete i j) [
              | yes p ↦ ground (arith, p, same, gone, strong, debt, old, alive)
              | no p ↦
                  let apart : (s.handles i).header ≢ b = λ q. p (v.distinct i j (q ∙ sym same)) in
                  ground (arith, gone, strong, debt, old)
            ];
        distinct = unfold drop_handle in v.distinct;
        known = λ b pos. unfold drop_handle in v.known b (omega (arith, ap (count b) d.0));
      }

  -- On a system whose debts are in the books: dropping a handle that is alive calls the system's
  -- cancellation for the raw handle and the header if an operation is in flight by the lock, and
  -- otherwise calls nothing. It does not wait: the system owes the completions that it owed, the
  -- port is as before, and the count of the header, which loses the handle's own, is the number of
  -- completions owed for it, so that it is freed with the last of them.
  pub drop_handle-owes :
      (s : System W) (i : ℕ)
      → Books owed s
      → s.alive i ≡ true
      → let s' = drop_handle os s i in
        let h = s.handles i in
        (s'.shared.world ≡ asked os (s.shared.heap h.header) h s.shared.world)
        × (owed s'.shared.world ≡ owed s.shared.world)
        × (s'.shared.port ≡ s.shared.port)
        × ((s'.shared.heap h.header).strong ≡ count h.header (owed s'.shared.world))
  unfolding drop_handle
  drop_handle-owes s i v alive =
      let h = cancel-Cancelling (ctx_of s i) in
      let dropped = dropped-Books i s alive v in
      (h.world, h.owes, h.port, ground (arith, dropped.held i (s.handles i).header refl))

  dropped-Kept : (i : ℕ) (s : System W) → s.alive i ≡ true → Kept owed s (drop_handle os s i)
  dropped-Kept i s alive =
      let d = drop_handle-kept s i in
      record { port = d.1; owes = d.0; books = dropped-Books i s alive }

  external-Kept :
      (s : System W) (w : W)
      → owed w ≡ owed s.shared.world
      → Kept owed s (record s { shared = record s.shared { world = w } })
  external-Kept s w e = record {
    port = refl;
    owes = e;
    books = Books-same owed s (record s.shared { world = w }) refl e;
  }

module _ {W : Type 0} (os : Os W) (api : Winsock W) (owed : W → List ℕ) (k : IsKernel os owed)
    (kw : IsWinsock api owed) where
  pub OtherStep-Kept : {s t : System W} → OtherStep os api owed s t → Kept owed s t
  OtherStep-Kept {s} (registered i raw address o h free e) =
      registered-Kept os owed k s i raw address o h free e
  OtherStep-Kept {s} (duplicated i j address alive free) = duplicated-Kept owed s i j address free
  OtherStep-Kept {s} (socket_registered i raw address o x free e) =
      socket_registered-Kept os api owed k kw s i raw address o x free e
  OtherStep-Kept {s} (socket_duplicated i j address alive free) =
      socket_duplicated-Kept owed s i j address free
  OtherStep-Kept {s} (dropped i alive) = dropped-Kept os owed k i s alive
  OtherStep-Kept {s} (external w e) = external-Kept os owed k s w e
