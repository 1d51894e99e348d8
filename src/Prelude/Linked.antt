-- ===== src/Prelude/Linked.antt =====
-- Singly linked lists: the elements that `next` leads through from a first one to the null pointer.
use Prim.Native.Nat.{ℕ}
use mathlib.Core.Path.{◌≡◌, sym, subst}
use mathlib.Core.Logic.{◌≢◌}
use mathlib.Core.Bool.{false}
use mathlib.Core.List.{List, [], ◌∷◌}
use mathlib.Core.Option.{Option, none, some}
use native.Mathlib.Omega.{arith}
use godby.Prelude.Tests.{==_iff, update, update_other}
use godby.Prelude.Chain.{mem}

abbrev pub Chain : (ℕ → Option ℕ) → Option ℕ → List ℕ → Type 0
Chain next o [] = o ≡ none
Chain next o (a ∷ l) = (o ≡ some a) × Chain next (next a) l

-- What is not in the list may change.
pub Chain-update :
    (next : ℕ → Option ℕ) (p : ℕ) (v o : Option ℕ) (l : List ℕ)
    → mem p l ≡ false
    → Chain next o l
    → Chain (update next p v) o l
Chain-update next p v o [] out c = c
Chain-update next p v o (a ∷ l) out c = (
  c.0,
  subst (λ o. Chain (update next p v) o l) (sym (update_other next p v a apart))
      (Chain-update next p v (next a) l (ground arith) c.1),
)
  where
    apart : a ≢ p
    apart e = ground (arith, (==_iff a p).1 e)
