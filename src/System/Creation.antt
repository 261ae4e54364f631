-- ===== src/System/Creation.antt =====
-- A new handle keeps the books: its header has the one count of the handle, and nothing is owed for
-- it.
use aiocp.Prelude.{
  ℕ, ◌+◌, ◌<◌, ◌≡◌, ◌≢◌, refl, sym, ap, ◌∙◌, true, false, List, count, ◌==◌, arith, inl, inr,
  Bool-cases, leb,
}
use native.Mathlib.Decide.{ℕ_discrete}
use aiocp.Io.{Outcome, ok, err, panic}
use aiocp.Os.{Os, Call, success, failure}
use aiocp.Kernel.{IsKernel}
use aiocp.Port.{reserved_ports}
use aiocp.Task
use aiocp.Task.{Header}
use aiocp.Shared.{Shared, update}
use aiocp.Handle.{Handle, new, duplicate}
use aiocp.Handle.Register.{RegisterOptions, register_handle, registered}
use aiocp.System.{System, ctx_of, adopt, IsFree}
use aiocp.System.Invariant.{Books, Kept, one_if}

module _ {W : Type 0} (owed : W → List ℕ) where
  -- What the creation of a handle does: a new header at the address, and no new debt.
  pub record Created (address : ℕ) (s : Shared W) (h : Handle) (s' : Shared W) : Type 0 where
    pub header : h.header ≡ address
    pub heap : (b : ℕ) → s'.heap b ≡ update s.heap address Task.new b
    pub port : s'.port ≡ s.port
    pub owes : owed s'.world ≡ owed s.world

  fresh-count :
      (s : System W) (i address : ℕ)
      → IsFree owed s i address
      → Books owed s
      → count address (owed s.shared.world) ≡ 0
  fresh-count s i address free v = elim (Bool-cases (count address (owed s.shared.world) == 0)) [
    | inl e ↦ ground arith
    | inr e ↦
        let (j, at) = v.known address (ground (arith, e)) in
        let same : (s.handles i).header ≡ address =
          ap (λ x. (s.handles x).header) (sym (free.fresh j at)) ∙ at in
        ap (λ a. count a (owed s.shared.world)) (sym same) ∙ free.settled
  ]

  -- The new handle, and any other.
  adopt-own :
      (s : System W) (i address : ℕ) (h : Handle) (s' : Shared W) (j : ℕ)
      → Created address s.shared h s'
      → i ≡ j
      → (((adopt s i h s').handles j).header ≡ address) × ((adopt s i h s').alive j ≡ true)
  adopt-own s i address h s' j c p = (ground (arith, p, c.header), ground (arith, p))

  adopt-other :
      (s : System W) (i : ℕ) (h : Handle) (s' : Shared W) (j : ℕ)
      → i ≢ j
      → (((adopt s i h s').handles j).header ≡ (s.handles j).header)
        × ((adopt s i h s').alive j ≡ s.alive j)
  adopt-other s i h s' j p = (ground arith, ground arith)

  adopt-held :
      (s : System W) (i address : ℕ) (h : Handle) (s' : Shared W)
      → IsFree owed s i address
      → Created address s.shared h s'
      → Books owed s
      → (j a : ℕ) → ((adopt s i h s').handles j).header ≡ a
      → (s'.heap a).strong ≡ one_if ((adopt s i h s').alive j) + count a (owed s'.world)
  adopt-held s i address h s' free c v j a e =
      let strong = ap (λ x. x.strong) (c.heap a) in
      let debt = ap (count a) c.owes in
      elim (ℕ_discrete i j) [
        | yes p ↦
            let own = adopt-own s i address h s' j c p in
            let at : address ≡ a = sym own.0 ∙ e in
            let none_owed : count a (owed s.shared.world) ≡ 0 =
              ap (λ b. count b (owed s.shared.world)) (sym at) ∙ fresh-count s i address free v in
            let one : one_if ((adopt s i h s').alive j) ≡ 1 = ap one_if own.1 in
            ground (arith, strong, at, one, debt, none_owed)
        | no p ↦
            let other = adopt-other s i h s' j p in
            let at : (s.handles j).header ≡ a = sym other.0 ∙ e in
            let apart : address ≢ a = λ q. p (sym (free.fresh j (at ∙ sym q))) in
            let same : one_if ((adopt s i h s').alive j) ≡ one_if (s.alive j) = ap one_if other.1 in
            let old = v.held j a at in ground (arith, strong, apart, same, debt, old)
      ]

  adopt-distinct :
      (s : System W) (i address : ℕ) (h : Handle) (s' : Shared W)
      → IsFree owed s i address
      → Created address s.shared h s'
      → Books owed s
      → (j l : ℕ) → ((adopt s i h s').handles j).header ≡ ((adopt s i h s').handles l).header
      → j ≡ l
  adopt-distinct s i address h s' free c v j l e = elim (ℕ_discrete i j) [
    | yes p ↦ elim (ℕ_discrete i l) [
      | yes q ↦ sym p ∙ q
      | no q ↦ absurd (
          q (
            sym (
              free.fresh l
                (sym (adopt-other s i h s' l q).0 ∙ sym e ∙ (adopt-own s i address h s' j c p).0))))
    ]
    | no p ↦ elim (ℕ_discrete i l) [
      | yes q ↦ absurd (
          p (
            sym (
              free.fresh j
                (sym (adopt-other s i h s' j p).0 ∙ e ∙ (adopt-own s i address h s' l c q).0))))
      | no q ↦ v.distinct j l (sym (adopt-other s i h s' j p).0 ∙ e ∙ (adopt-other s i h s' l q).0)
    ]
  ]

  pub adopt-Books :
      (s : System W) (i address : ℕ) (h : Handle) (s' : Shared W)
      → IsFree owed s i address
      → Created address s.shared h s'
      → Books owed s
      → Books owed (adopt s i h s')
  adopt-Books s i address h s' free c v = record {
    held = adopt-held s i address h s' free c v;
    distinct = adopt-distinct s i address h s' free c v;
    known = λ a pos.
        let before : 0 < count a (owed s.shared.world) = omega (arith, ap (count a) c.owes) in
        let (j, e) = v.known a before in
        let apart : i ≢ j = λ p. absurd (
          omega (
            arith,
            free.settled,
            ap (λ b. count b (owed s.shared.world)) (ap (λ x. (s.handles x).header) p ∙ e),
          )) in
        (j, (adopt-other s i h s' j apart).0 ∙ e);
  }

  pub adopt-Kept :
      (s : System W) (i address : ℕ) (h : Handle) (s' : Shared W)
      → IsFree owed s i address
      → Created address s.shared h s'
      → Kept owed s (adopt s i h s')
  adopt-Kept s i address h s' free c = record {
    port = c.port;
    owes = c.owes;
    books = adopt-Books s i address h s' free c;
  }

  pub duplicated-Kept :
      (s : System W) (i j address : ℕ)
      → IsFree owed s j address
      → Kept owed s
          (adopt s j (duplicate address (ctx_of s i)).0 (duplicate address (ctx_of s i)).1)
  unfolding duplicate new
  duplicated-Kept s i j address free =
      adopt-Kept s j address _ _ free
        (record { header = refl; heap = λ b. refl; port = refl; owes = refl })

module _ {W : Type 0} (os : Os W) (owed : W → List ℕ) (k : IsKernel os owed) where
  abbrev header_of : Outcome Handle → ℕ
  header_of (ok h) = h.header
  header_of (err e) = 0
  header_of panic = 0

  registered-Created :
      (raw address size : ℕ) (h : Handle) (s : Shared W) (r : Call × W)
      → owed r.1 ≡ owed s.world
      → (registered os raw address size s r).0 ≡ ok h
      → Created owed address s h (registered os raw address size s r).1
  unfolding registered new
  registered-Created raw address size h s (success _, w) keeps e = record {
    header = sym (ap header_of e);
    heap = λ b. refl;
    port = refl;
    owes = keeps;
  }
  registered-Created raw address size h s (failure x, w) keeps e = cc

  register_handle-refused :
      (raw address : ℕ) (o : RegisterOptions) (h : Handle) (s : Shared W)
      → leb reserved_ports o.key ≡ true
      → (register_handle os raw address o s).0 ≢ ok h
  unfolding register_handle
  register_handle-refused raw address o h s r e = cc

  register_handle-registered :
      (raw address : ℕ) (o : RegisterOptions) (s : Shared W)
      → leb reserved_ports o.key ≡ false
      → register_handle os raw address o s
        ≡ registered os raw address o.max_buffer_size s
            (os.create_io_completion_port raw s.port.raw o.key 0 s.world)
  unfolding register_handle
  register_handle-registered raw address o s r = rw r refl

  register_handle-Created :
      (raw address : ℕ) (o : RegisterOptions) (h : Handle) (s : Shared W)
      → (register_handle os raw address o s).0 ≡ ok h
      → Created owed address s h (register_handle os raw address o s).1
  register_handle-Created raw address o h s e = elim (Bool-cases (leb reserved_ports o.key)) [
    | inl reserved ↦ absurd (register_handle-refused raw address o h s reserved e)
    | inr ordinary ↦
        let path = register_handle-registered raw address o s ordinary in
        rw path (
          registered-Created raw address o.max_buffer_size h s _
            (k.create_io_completion_port_keeps raw s.port.raw o.key 0 s.world)
            (sym (ap (λ x. x.0) path) ∙ e))
  ]

  pub registered-Kept :
      (s : System W) (i raw address : ℕ) (o : RegisterOptions) (h : Handle)
      → IsFree owed s i address
      → (register_handle os raw address o s.shared).0 ≡ ok h
      → Kept owed s (adopt s i h (register_handle os raw address o s.shared).1)
  registered-Kept s i raw address o h free e =
      adopt-Kept owed s i address h _ free (register_handle-Created raw address o h s.shared e)
