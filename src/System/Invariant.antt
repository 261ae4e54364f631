-- ===== src/System/Invariant.antt =====
-- The books of the whole system: what the counter of the port and the counts of the headers say.
use aiocp.Prelude.{sym, ap, arith, ◌∙◌, ℕ, ◌+◌, ◌<◌, ◌≡◌, Bool, List, length, count, if◌then◌else◌}
use aiocp.Shared.{Shared}
use aiocp.System.{System}

abbrev pub one_if : Bool → ℕ
one_if b = if b then 1 else 0

-- The count of a header is one for its handle, if that is alive, and one for each completion owed for
-- it. Each handle has a header of its own, and completions are owed for headers of handles only.
pub record Books {W : Type 0} (owed : W → List ℕ) (s : System W) : Type 0 where
  pub held :
      (i a : ℕ)
      → (s.handles i).header ≡ a
      → (s.shared.heap a).strong ≡ one_if (s.alive i) + count a (owed s.shared.world)
  pub distinct : (i j : ℕ) → (s.handles i).header ≡ (s.handles j).header → i ≡ j
  pub known : (a : ℕ) → 0 < count a (owed s.shared.world) → (i : ℕ) × ((s.handles i).header ≡ a)

-- The counter is the number of completions owed.
pub record Inv {W : Type 0} (owed : W → List ℕ) (s : System W) : Type 0 where
  pub counted : s.shared.port.pending ≡ length (owed s.shared.world)
  pub books : Books owed s
  pub open books use *

-- A step that leaves the counter and the debts alone, and keeps the books.
pub record Kept {W : Type 0} (owed : W → List ℕ) (s t : System W) : Type 0 where
  pub port : t.shared.port ≡ s.shared.port
  pub owes : owed t.shared.world ≡ owed s.shared.world
  pub books : Books owed s → Books owed t

module _ {W : Type 0} (owed : W → List ℕ) where
  pub Kept-Inv : (s t : System W) → Kept owed s t → Inv owed s → Inv owed t
  Kept-Inv s t k v = record {
    counted = ap (λ p. p.pending) k.port ∙ v.counted ∙ ap length (sym k.owes);
    books = k.books v.books;
  }

  -- The books are about the counts of the headers and the debts alone.
  pub Books-same :
      (s : System W) (s' : Shared W)
      → s'.heap ≡ s.shared.heap
      → owed s'.world ≡ owed s.shared.world
      → Books owed s
      → Books owed (record s { shared = s' })
  Books-same s s' h e v = record {
    held = λ j b o.
        ap (λ f. (f b).strong) h ∙ v.held j b o ∙ ap (λ x. one_if (s.alive j) + count b x) (sym e);
    distinct = v.distinct;
    known = λ b pos. v.known b (omega (arith, ap (count b) e));
  }
