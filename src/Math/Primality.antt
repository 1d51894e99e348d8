-- ===== src/Math/Primality.antt =====
-- `IsPrime` below 1373653 tells the prime numbers.
use godby.Prelude.{
  ℕ, zero, suc, ◌+◌, ◌-◌, ◌*◌, ◌/◌, ◌%◌, ◌≤◌, ◌<◌, ◌≡◌, ◌≢◌, ◌↔◌, refl, sym, ◌∙◌, ap, bit_and, Bool,
  true, false, not, ◌&&◌, ◌||◌, some, arith, ◌⊎◌, inl, inr, ltb, lt→ltb, ◌==◌, Bool-cases,
}
use godby.Prelude.Bits.{bit_and-one}
use godby.Math.{is_prime}
use native.Mathlib.Nat.{
  mul-le-mul, mul-mod_left, mul-zero, mul-one, div-add-mod, mod-eq-zero_of_dvd, dvd_of_mod-eq-zero,
  dvd_trans,
}
use godby.Math.Trial.{square, Divides, trial_loop-Tried}

-- A prime number, by the remainders.
pub record Prime (n : ℕ) : Type 0 where
  pub above : 1 < n
  pub irreducible : (d : ℕ) → 1 < d → d < n → n % d ≢ 0

-- A number that 6 is prime to is next to a multiple of 6.
next_to_six :
    (d : ℕ)
    → 1 < d
    → d % 2 ≢ 0
    → d % 3 ≢ 0
    → (j : ℕ) × (1 ≤ j) × ((d ≡ 6 * j + 1) ⊎ (d ≡ 6 * j - 1))
next_to_six d above odd no_three = elim (cases d odd no_three) [
  | inl h ↦ (d / 6, omega (arith, h), inl (omega (arith, h)))
  | inr h ↦ (d / 6 + 1, omega arith, inr (omega (arith, h)))
]
  where
    cases : (d : ℕ) → d % 2 ≢ 0 → d % 3 ≢ 0 → (d % 6 ≡ 1) ⊎ (d % 6 ≡ 5)
    cases d odd no_three = omega (arith, odd, no_three)

-- A number with no divisor up to its root has none.
prime_of_small : (n : ℕ) → 1 < n → ((d : ℕ) → 1 < d → d * d ≤ n → n % d ≢ 0) → Prime n
prime_of_small n above none_small = record { above = above; irreducible = none_at }
  where
    none_at : (d : ℕ) → 1 < d → d < n → n % d ≢ 0
    none_at d more less divides = elim (cases (n / d)) [
      | inl h ↦
          none_small d more (omega (arith, whole, mul-le-mul {n₁ = d} {n₂ = d} (omega arith) h))
            divides
      | inr h ↦
          none_small (n / d) (cofactor (n / d) whole)
            (omega (
              arith,
              whole,
              mul-le-mul {n₁ = n / d} {m₁ = n / d} {n₂ = d} {m₂ = n / d} (omega arith)
                  (omega arith),
            ))
            (ap (λ x. x % (n / d)) (sym whole) ∙ mul-mod_left d (n / d))
    ]
      where
        whole : d * (n / d) ≡ n
        whole = omega (arith, div-add-mod n d, divides)

        cases : (q : ℕ) → (d ≤ q) ⊎ (q < d)
        cases q = omega arith

        cofactor : (q : ℕ) → d * q ≡ n → 1 < q
        cofactor zero e = absurd (omega (arith, e, mul-zero d))
        cofactor (suc zero) e = absurd (omega (arith, e, mul-one d))
        cofactor (suc (suc q)) e = omega arith

-- The loop's bound is the root, and every divisor that it tries is less than the number.
square_root : (i : ℕ) → square (suc i) + 1 ≡ (6 * i + 5) * (6 * i + 5)
unfolding square
square_root i = ap (λ x. x * suc i + 1) {y = 36 * i + 24} (omega arith) ∙ polynomial
  where
    polynomial : (36 * i + 24) * suc i + 1 ≡ (6 * i + 5) * (6 * i + 5)
    polynomial = grind arith

near_square : (j : ℕ) → 1 ≤ j → 24 * j ≤ square j
unfolding square
near_square j h =
    mul-le-mul {n₁ = 24} {m₁ = j} {n₂ = 36 * j - 12} {m₂ = j} (omega arith) (omega arith)

module _ (n : ℕ) where
  screened : Bool
  screened = (bit_and n 1 == 0) && not (n == 2) || ltb n 2 || (n % 3 == 0) && not (n == 3)

  screened-true : screened ≡ true → ¬ Prime n
  unfolding screened
  screened-true h p = ground (arith, bit_and-one n, p.above, p.irreducible 2, p.irreducible 3)

  screened-false : screened ≡ false → (1 < n) × ((n ≡ 2) ⊎ (n % 2 ≢ 0)) × ((n ≡ 3) ⊎ (n % 3 ≢ 0))
  unfolding screened
  screened-false h = ground (arith, bit_and-one n)

tried-Prime :
    (n : ℕ) → screened n ≡ false → ((j : ℕ) → 1 ≤ j → square j < n → ¬ Divides n j) → Prime n
tried-Prime n h all =
    let (above, two, three) = screened-false n h in
    prime_of_small n above (λ d more root divides. elim two [
      | inl e ↦ absurd (omega (arith, e, root, four d more))
      | inr odd ↦ elim three [
        | inl e ↦ absurd (omega (arith, e, root, four d more))
        | inr no_three ↦
            let (j, from, beside) =
              next_to_six d more (inherit d 2 divides odd) (inherit d 3 divides no_three) in
            all j from (near j d from beside root) (divide j d beside divides)
      ]
    ])
  where
    four : (d : ℕ) → 1 < d → 4 ≤ d * d
    four d more = mul-le-mul {n₁ = 2} {m₁ = 2} {n₂ = d} {m₂ = d} more more

    inherit : (d p : ℕ) → n % d ≡ 0 → n % p ≢ 0 → d % p ≢ 0
    inherit d p divides ne e =
        ne (
          mod-eq-zero_of_dvd p
            (dvd_trans p (dvd_of_mod-eq-zero p e) (dvd_of_mod-eq-zero d divides)))

    divide : (j d : ℕ) → ((d ≡ 6 * j + 1) ⊎ (d ≡ 6 * j - 1)) → n % d ≡ 0 → Divides n j
    divide j d (inl e) divides = inl (ap (λ x. n % x) (sym e) ∙ divides)
    divide j d (inr e) divides = inr (ap (λ x. n % x) (sym e) ∙ divides)

    near : (j d : ℕ) → 1 ≤ j → ((d ≡ 6 * j + 1) ⊎ (d ≡ 6 * j - 1)) → d * d ≤ n → square j < n
    near zero d from beside root = absurd (omega arith)
    near (suc i) d from beside root =
        let low : 6 * i + 5 ≤ d = omega (arith, beside) in
        omega (
          arith,
          square_root i,
          root,
          mul-le-mul {n₁ = 6 * i + 5} {m₁ = 6 * i + 5} {n₂ = d} {m₂ = d} low low,
        )

tried_composite : (n j : ℕ) → 1 ≤ j → square j < n → Divides n j → ¬ Prime n
tried_composite n j from close (inl e) p =
    p.irreducible (6 * j + 1) (omega arith) (omega (arith, near_square j from)) e
tried_composite n j from close (inr e) p =
    p.irreducible (6 * j - 1) (omega arith) (omega (arith, near_square j from)) e

-- Below 1373653, `IsPrime` answers, and says whether the number is prime.
pub is_prime_lem :
    (n : ℕ) → n < 1373653 → (b : Bool) × (is_prime n ≡ some b) × ((b ≡ true) ↔ Prime n)
unfolding is_prime screened
is_prime_lem n small = elim (Bool-cases (screened n)) [
  | inl yes_screened ↦
      rw yes_screened (false, refl, (λ e. absurd cc, λ p. absurd (screened-true n yes_screened p)))
  | inr not_screened ↦
      let t = trial_loop-Tried 200 1 n (omega arith) (omega arith) (omega arith) small in
      rw (not_screened, lt→ltb n 1373653 small)
        (
          t.answer,
          t.result,
          (
            λ e. tried-Prime n not_screened (t.all e),
            λ p. elim (Bool-cases t.answer) [
              | inl e ↦ e
              | inr e ↦
                  let (j, from, close, d) = t.one e in absurd (tried_composite n j from close d p)
            ],
          ),
        )
]

-- What `IsPrime` takes for a prime below 1373653 is one.
pub prime_of : (n : ℕ) → n < 1373653 → is_prime n ≡ some true → Prime n
prime_of n small yes_prime =
    let (b, e, (to, from)) = is_prime_lem n small in to (some_inj (sym e ∙ yes_prime))
  where
    some_inj : {b c : Bool} → some b ≡ some c → b ≡ c
    some_inj e = cc
