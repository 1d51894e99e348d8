-- ===== src/Math/Trial.antt =====
-- The loop of `IsPrime` below 1373653, which divides by the numbers next to the multiples of 6.
use godby.Prelude.{
  ℕ, zero, suc, ◌+◌, ◌-◌, ◌*◌, ◌%◌, ◌≤◌, ◌<◌, ◌≡◌, refl, sym, ◌∙◌, ap, subst, Bool, true, false,
  ◌||◌, Option, some, arith, ◌⊎◌, inl, inr, ltb, ltb→lt, ltb_false→le, ◌==◌, Bool-cases,
}
use godby.Math.{word, mul, trial_loop}
use native.Mathlib.Nat.{mul-le-mul, add-mul, mod-eq_of_lt}

-- The square of the smaller of the two divisors that the loop tries at `k`, less one.
abbrev limit : ℕ → ℕ
limit k = (mul (mul 36 k) k + word - mul 12 k) % word

unfoldable pub square : ℕ → ℕ
square k = (36 * k - 12) * k

limit-square : (k : ℕ) → k ≤ 1000 → 0 < k → limit k ≡ square k
unfolding square
limit-square k small pos =
    ap (λ x. (x * k % word + word - mul 12 k) % word) {y = 36 * k} (mod-eq_of_lt (omega arith))
    ∙ omega (arith, add-mul (36 * k - 12) 12 k, whole, product, less)
  where
    product : 36 * k * k ≤ 36000 * 1000
    product = mul-le-mul {n₁ = 36 * k} {n₂ = 36000} (omega arith) small

    whole : (36 * k - 12 + 12) * k ≡ 36 * k * k
    whole = ap (λ x. x * k) (omega arith)

    less : 12 * k * 1 ≤ 36 * k * k
    less = mul-le-mul {n₁ = 12 * k} {n₂ = 36 * k} (omega arith) pos

square_mono : (k j : ℕ) → k ≤ j → square k ≤ square j
unfolding square
square_mono k j h = mul-le-mul (omega arith) h

-- The loop has come to `k`; what it will say, where the divisors left are those of `k` and above.
abbrev pub Divides : ℕ → ℕ → Type 0
Divides n j = (n % (6 * j + 1) ≡ 0) ⊎ (n % (6 * j - 1) ≡ 0)

pub record Tried (n k : ℕ) (r : Option Bool) : Type 0 where
  pub answer : Bool
  pub result : r ≡ some answer
  pub all : answer ≡ true → (j : ℕ) → k ≤ j → square j < n → ¬ Divides n j
  pub one : answer ≡ false → (j : ℕ) × (k ≤ j) × (square j < n) × Divides n j

below_196 : (k : ℕ) → square k < 1373653 → k + 1 ≤ 196
unfolding square
below_196 k h = elim (cases k) [
  | inl le ↦ le
  | inr big ↦ absurd (
      omega (
        arith,
        h,
        mul-le-mul {n₁ = 7044} {m₁ = 196} {n₂ = 36 * k - 12} {m₂ = k} (omega (arith, big)) big,
      ))
]
  where
    cases : (k : ℕ) → (k + 1 ≤ 196) ⊎ (196 ≤ k)
    cases k = omega arith

found_cases : (x y : ℕ) → ((x == 0) || (y == 0)) ≡ true → (x ≡ 0) ⊎ (y ≡ 0)
found_cases x y h = ground arith

found_none : (x y : ℕ) → ((x == 0) || (y == 0)) ≡ false → ¬ ((x ≡ 0) ⊎ (y ≡ 0))
found_none x y h = ground arith

pub trial_loop-Tried :
    (fuel k n : ℕ)
    → fuel + k ≡ 201
    → 0 < k
    → k ≤ 196
    → n < 1373653
    → Tried n k (trial_loop fuel k n)
unfolding trial_loop
trial_loop-Tried zero k n e pos low small = absurd (omega arith)
trial_loop-Tried (suc fuel) k n e pos low small = elim (Bool-cases (ltb (limit k) n)) [
  | inr stop ↦ rw stop (record {
    answer = true;
    result = refl;
    all = λ h j from near.
        absurd (omega (arith, square_mono k j from, same, ltb_false→le (limit k) n stop));
    one = λ h. absurd cc;
  })
  | inl more ↦ rw more (elim (Bool-cases found) [
    | inl divides ↦ rw divides (record {
      answer = false;
      result = refl;
      all = λ h. absurd cc;
      one = λ h. (k, omega arith, within more, found→Divides divides);
    })
    | inr not_yet ↦ rw not_yet (
        later (within more) (found_false not_yet)
          (trial_loop-Tried fuel (k + 1) n (omega arith) (omega arith) (next (within more)) small))
  ])
]
  where
    found : Bool
    found = (n % (6 * k + 1) == 0) || (n % (6 * k - 1) == 0)

    same : limit k ≡ square k
    same = limit-square k (omega arith) pos

    within : ltb (limit k) n ≡ true → square k < n
    within more = omega (arith, same, ltb→lt (limit k) n more)

    found→Divides : found ≡ true → Divides n k
    found→Divides h = found_cases (n % (6 * k + 1)) (n % (6 * k - 1)) h

    found_false : found ≡ false → ¬ Divides n k
    found_false h = found_none (n % (6 * k + 1)) (n % (6 * k - 1)) h

    next : square k < n → k + 1 ≤ 196
    next h = below_196 k (omega (arith, h))

    later : square k < n → ¬ Divides n k → {r : Option Bool} → Tried n (k + 1) r → Tried n k r
    later near none_here t = record {
      answer = t.answer;
      result = t.result;
      all = λ h j from close. elim (order j from) [
        | inl here ↦ λ d. none_here (subst (Divides n) (sym here) d)
        | inr after ↦ t.all h j after close
      ];
      one = λ h. let (j, from, close, d) = t.one h in (j, omega (arith, from), close, d);
    }
      where
        order : (j : ℕ) → k ≤ j → (k ≡ j) ⊎ (k + 1 ≤ j)
        order j h = omega arith
