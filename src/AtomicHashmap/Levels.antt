-- ===== src/AtomicHashmap/Levels.antt =====
-- The levels fill the array, and the buckets of a key are in it.
use godby.Prelude.{
  ℕ, zero, suc, ◌+◌, ◌*◌, ◌/◌, ◌%◌, ◌^◌, ◌<◌, ◌≡◌, refl, ap, subst, Option, none, some, List, [],
  ◌∷◌, arith, length, inl, inr, Bool-cases, ltb,
}
use godby.AtomicHashmap.{
  Map, Built, built, invalid, division_by_zero, gen_multi_level_size, add_level, build, create_from,
  create,
}
use godby.AtomicHashmap.Path.{All, nil, cons, path}
use native.Mathlib.Nat.{mod-lt}

unfoldable pub total : List ℕ → ℕ
total [] = 0
total (c ∷ cs) = c + total cs

pub record Valid {K V : Type 0} (m : Map K V) : Type 0 where
  pub fills : total m.level_capacity ≡ m.capacity
  pub sizes : All (λ c. 0 < c) m.level_capacity

-- Every bucket of a key is in the array.
pub path-All :
    (hash base : ℕ) {levels : List ℕ}
    → All (λ c. 0 < c) levels
    → All (λ i. i < base + total levels) (path hash base levels)
unfolding path total
path-All hash base nil = nil
path-All hash base (cons {x} {xs} pos p) =
    cons (omega (arith, mod-lt hash pos)) (raise base x (total xs) (path-All hash (base + x) p))
  where
    raise :
        (base x n : ℕ) {is : List ℕ}
        → All (λ i. i < base + x + n) is
        → All (λ i. i < base + (x + n)) is
    raise base x n nil = nil
    raise base x n (cons h all) = cons (omega arith) (raise base x n all)

-- What the sizes come to, where the result is no error.
Sized : ℕ → ℕ → Option (List ℕ × ℕ) → Type 0
Sized level sum none = Unit
Sized level sum (some (cs, t)) =
    (length cs ≡ level) × All (λ c. 0 < c) cs × (t ≡ (sum + total cs) % 2 ^ 64)

Good : {K V : Type 0} → ℕ → Built K V → Type 0
Good level_size (built m) =
    (length m.level_capacity ≡ level_size)
    × (total m.level_capacity < 2 ^ 64 → Valid m)
    × ((i : ℕ) → (m.buckets i).key ≡ none)
Good level_size invalid = Unit
Good level_size division_by_zero = Unit

module _ (prime_for occupied : ℕ → ℕ) (left : ℕ → ℕ → ℕ) (pos : (x : ℕ) → 0 < prime_for x) where
  gen-Sized :
      (n level sum : ℕ)
      → sum < 2 ^ 64
      → Sized level sum (gen_multi_level_size prime_for occupied left n level sum)
  unfolding gen_multi_level_size total Sized
  gen-Sized n zero sum small = (refl, nil, omega arith)
  gen-Sized n (suc level) sum small = elim (Bool-cases (ltb n (occupied (prime_for n)))) [
    | inl over ↦ rw over tt
    | inr fits ↦ rw fits (
        one_more
          (gen_multi_level_size prime_for occupied left (left n (prime_for n)) level
            ((sum + prime_for n) % 2 ^ 64))
          (gen-Sized (left n (prime_for n)) level ((sum + prime_for n) % 2 ^ 64) (omega arith)))
  ]
    where
      one_more :
          (r : Option (List ℕ × ℕ))
          → Sized level ((sum + prime_for n) % 2 ^ 64) r
          → Sized (suc level) sum (add_level (prime_for n) r)
      one_more none h = tt
      one_more (some (cs, t)) (len, sizes, e) = (ap suc len, cons (pos n) sizes, omega (arith, e))

  -- A map that is constructed has as many levels as asked for, none of them empty, and no key in it;
  -- its levels fill its array, if there are fewer than 2 ^ 64 buckets.
  pub create-Good :
      {K V : Type 0} (expected_capacity level_size : ℕ) (m : Map K V)
      → create prime_for occupied left expected_capacity level_size ≡ built m
      → (length m.level_capacity ≡ level_size)
        × (total m.level_capacity < 2 ^ 64 → Valid m)
        × ((i : ℕ) → (m.buckets i).key ≡ none)
  unfolding create Good Sized
  create-Good {K} {V} expected_capacity level_size m e =
      subst (Good level_size) e
        (from_Good (gen_multi_level_size prime_for occupied left expected_capacity level_size 0))
    where
      build_Good :
          (r : Option (List ℕ × ℕ))
          → Sized level_size 0 r
          → Good level_size (build {K = K} {V = V} r)
      build_Good none h = tt
      build_Good (some (cs, t)) (len, sizes, sum) =
          (len, λ small. record { fills = omega (arith, sum, small); sizes = sizes }, λ i. refl)

      from_Good :
          (r : Option (List ℕ × ℕ))
          → Good level_size
              (create_from prime_for occupied left {K = K} {V = V} expected_capacity level_size r)
      from_Good none = tt
      from_Good (some (_, zero)) = tt
      from_Good (some (_, suc capacity)) = build_Good _ (
          gen-Sized (expected_capacity * expected_capacity % 2 ^ 64 / suc capacity) level_size 0
            (omega arith))
