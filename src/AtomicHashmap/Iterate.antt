-- ===== src/AtomicHashmap/Iterate.antt =====
-- The iterator: from `begin()` to `end()` it stands at the buckets that are occupied, in order.
use godby.Prelude.{
  ℕ, zero, suc, ◌+◌, ◌≤◌, ◌≡◌, refl, ap, List, [], ◌∷◌, arith, inl, inr, Bool-cases, if◌then◌else◌,
  Option, none, some,
}
use godby.AtomicHashmap.{Bucket, Map, is_occupied, advance_to_next_valid, begin, next}

abbrev visit : ℕ → Option (List ℕ) → Option (List ℕ)
visit i none = none
visit i (some is) = some (i ∷ is)

module _ {K V : Type 0} (buckets : ℕ → Bucket K V) where
  -- The occupied ones of the `n` buckets from `i` on, which `WalkAll` gives to its walker.
  unfoldable pub occupied_from : ℕ → ℕ → List ℕ
  occupied_from zero i = []
  occupied_from (suc n) i =
      let rest = occupied_from n (i + 1) in if is_occupied (buckets i) then i ∷ rest else rest

  -- `for (; it != end(); ++it)`, with at most `fuel` turns; `none`: they were too few.
  unfoldable pub iterate : ℕ → ℕ × ℕ → Option (List ℕ)
  iterate fuel (zero, i) = some []
  iterate zero (suc n, i) = none
  iterate (suc fuel) (suc n, i) = visit i (iterate fuel (next (suc n, i) buckets))

  iterate_lem :
      (n fuel i : ℕ)
      → n ≤ fuel
      → iterate fuel (advance_to_next_valid n i buckets) ≡ some (occupied_from n i)
  unfolding iterate advance_to_next_valid occupied_from next
  iterate_lem zero fuel i enough = refl
  iterate_lem (suc n) zero i enough = absurd (omega arith)
  iterate_lem (suc n) (suc fuel) i enough = elim (Bool-cases (is_occupied (buckets i))) [
    | inl here ↦ rw here (ap (visit i) (iterate_lem n fuel (i + 1) (omega arith)))
    | inr empty ↦ rw empty (iterate_lem n (suc fuel) (i + 1) (omega arith))
  ]

-- Going from `begin()` to `end()` takes no more turns than the map has buckets, and stands once at each
-- occupied bucket, in order.
pub iterate-begin :
    {K V : Type 0} (m : Map K V) (fuel : ℕ)
    → m.capacity ≤ fuel
    → iterate m.buckets fuel (begin m) ≡ some (occupied_from m.buckets m.capacity 0)
unfolding begin
iterate-begin m fuel enough = iterate_lem m.buckets m.capacity fuel 0 enough
