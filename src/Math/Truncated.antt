-- ===== src/Math/Truncated.antt =====
-- `IsPrime` from 9080191 on hands only the low 32 bits of its argument to `IsPrime_witness`.
use godby.Prelude.{
  ℕ, zero, suc, ◌+◌, ◌/◌, ◌%◌, ◌≤◌, ◌≡◌, ◌≢◌, refl, ◌∙◌, ap, bit_and, true, false, not, ◌&&◌, ◌||◌,
  none, some, [], ◌∷◌, arith, ltb, ◌==◌,
}
use godby.Prelude.Bits.{bit_and-one}
use godby.Math.{
  unsigned, halve, square_loop, is_prime_power, power_loop, is_prime_witness, passes, is_prime,
}

-- Halving never takes 0 to an odd number, however often it is done.
pub halve-zero : (n t : ℕ) → halve n 0 t ≡ none
unfolding halve
halve-zero zero t = refl
halve-zero (suc n) t = halve-zero n (t + 1)

large :
    (n : ℕ)
    → 9080191 ≤ n
    → n % 2 ≡ 1
    → n % 3 ≢ 0
    → is_prime n ≡ passes (2 ∷ 7 ∷ 61 ∷ []) (n % unsigned)
unfolding is_prime
large n high odd no_three = rw (not_screened, not_small, not_middle) refl
  where
    not_screened :
        ((bit_and n 1 == 0) && not (n == 2) || ltb n 2 || (n % 3 == 0) && not (n == 3)) ≡ false
    not_screened = ground (arith, bit_and-one n)

    not_small : ltb n 1373653 ≡ false
    not_small = ground arith

    not_middle : ltb n 9080191 ≡ false
    not_middle = ground arith

passes-one : passes (2 ∷ 7 ∷ 61 ∷ []) 1 ≡ none
unfolding passes is_prime_witness halve
passes-one = refl

passes-three : passes (2 ∷ 7 ∷ 61 ∷ []) 3 ≡ some true
unfolding passes is_prime_witness halve square_loop is_prime_power power_loop
passes-three = refl

-- An odd number from 9080191 on that is no multiple of 3: when its low 32 bits are 1, `IsPrime` never
-- comes to an end, and when they are 3, it says that the number is prime.
pub is_prime_truncated :
    (n : ℕ)
    → 9080191 ≤ n
    → n % 2 ≡ 1
    → n % 3 ≢ 0
    → (n % unsigned ≡ 1
        → (is_prime n ≡ none) × ((rounds t : ℕ) → halve rounds (n % unsigned / 2) t ≡ none))
      × (n % unsigned ≡ 3 → is_prime n ≡ some true)
is_prime_truncated n high odd no_three = (
  λ e. (
    large n high odd no_three ∙ (ap (passes (2 ∷ 7 ∷ 61 ∷ [])) e ∙ passes-one),
    λ rounds t. ap (λ x. halve rounds (x / 2) t) e ∙ halve-zero rounds t,
  ),
  λ e. large n high odd no_three ∙ (ap (passes (2 ∷ 7 ∷ 61 ∷ [])) e ∙ passes-three),
)
