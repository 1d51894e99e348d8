-- ===== src/Math/Bit.antt =====
-- The highest bit of a number and the next power of two.
use godby.Prelude.{
  ℕ, zero, suc, ◌+◌, ◌-◌, ◌*◌, ◌/◌, ◌%◌, ◌^◌, ◌≤◌, ◌<◌, ◌≡◌, refl, sym, ◌∙◌, ap, subst, false,
  arith, ◌⊎◌, inl, inr, ltb, leb, leb→le, leb_false→lt, ltb→lt, ltb_false→le, Bool-cases,
  if◌then◌else◌, ◌==◌, ◌||◌,
}
use godby.Math.{word, msb_bits, msb, double_until, next_power_of_two, next_power_of_two_clz}
use native.Mathlib.Nat.{mod-eq_of_lt, pow-suc, pow-le-pow_right}

pow_next : (k : ℕ) → 2 ^ (k + 1) ≡ 2 ^ k * 2
pow_next k = ap (λ e. 2 ^ e) {y = suc k} (omega arith) ∙ pow-suc 2 k

pow_then : (k : ℕ) → 2 ^ (1 + k) ≡ 2 ^ k * 2
pow_then k = ap (λ e. 2 ^ e) {y = suc k} (omega arith) ∙ pow-suc 2 k

msb_bits_lem : (n x : ℕ) → 0 < x → x < 2 ^ n → (2 ^ msb_bits n x ≤ x) × (x < 2 ^ (msb_bits n x + 1))
unfolding msb_bits
msb_bits_lem zero x pos small = absurd (omega arith)
msb_bits_lem (suc n) x pos small = elim (Bool-cases (ltb 1 x)) [
  | inl more ↦
      let (low, high) =
        msb_bits_lem n (x / 2) (omega (arith, ltb→lt 1 x more)) (omega (arith, pow-suc 2 n)) in
      rw more (
        omega (arith, pow_then (msb_bits n (x / 2)), low),
        omega (
          arith,
          pow_next (1 + msb_bits n (x / 2)),
          pow_then (msb_bits n (x / 2)),
          pow_next (msb_bits n (x / 2)),
          high,
        ),
      )
  | inr one ↦ rw one (omega (arith, ltb_false→le 1 x one), omega (arith, ltb_false→le 1 x one))
]

-- `MSB` of a positive 64-bit number is below 64, and `2 ^ msb x` is the greatest power of two that is at most `x`.
pub msb_lem : (x : ℕ) → 0 < x → x < word → (2 ^ msb x ≤ x) × (x < 2 ^ (msb x + 1)) × (msb x < 64)
unfolding msb
msb_lem x pos small =
    let (low, high) = msb_bits_lem 64 x pos small in (low, high, below low (cases (msb_bits 64 x)))
  where
    cases : (m : ℕ) → (m < 64) ⊎ (64 ≤ m)
    cases m = omega arith

    below : 2 ^ msb_bits 64 x ≤ x → (msb_bits 64 x < 64) ⊎ (64 ≤ msb_bits 64 x) → msb_bits 64 x < 64
    below low (inl h) = h
    below low (inr h) = absurd (omega (arith, pow-le-pow_right {n = 2} (omega arith) h, low))

-- What tells the least power of two that is at least `x`.
record Least (x j : ℕ) : Type 0 where
  pub enough : x ≤ 2 ^ j
  pub needed : (i : ℕ) → x ≤ 2 ^ i → j ≤ i

Least-of : (x j : ℕ) → x ≤ 2 ^ j → (j ≡ 0) ⊎ (2 ^ j < x * 2) → Least x j
Least-of x j enough (inl h) = record { enough = enough; needed = λ i e. omega (arith, h) }
Least-of x j enough (inr h) = record {
  enough = enough;
  needed = λ i e. elim (order i) [
    | inl le ↦ le
    | inr less ↦ absurd (
        omega (
          arith,
          h,
          e,
          pow_next i,
          pow-le-pow_right {n = 2} (omega arith) {i = i + 1} {j = j} less,
        ))
  ];
}
  where
    order : (i : ℕ) → (j ≤ i) ⊎ (i + 1 ≤ j)
    order i = omega arith

Least-unique : (x j k : ℕ) → Least x j → Least x k → j ≡ k
Least-unique x j k a b = omega (arith, a.needed k b.enough, b.needed j a.enough)

double_until_lem :
    (n k x : ℕ)
    → x ≤ 2 ^ (n + k)
    → (k ≡ 0) ⊎ (2 ^ k < x * 2)
    → (j : ℕ) × (double_until n (2 ^ k) x ≡ 2 ^ j) × Least x j
unfolding double_until
double_until_lem zero k x fits near =
    (k, refl, Least-of x k (subst (λ e. x ≤ 2 ^ e) {x = 0 + k} {y = k} (omega arith) fits) near)
double_until_lem (suc n) k x fits near = elim (Bool-cases (leb x (2 ^ k))) [
  | inl stop ↦ rw stop (k, refl, Least-of x k (leb→le x (2 ^ k) stop) near)
  | inr go ↦
      rw (go, ← (pow_next k))
        (double_until_lem n (k + 1) x
          (subst (λ e. x ≤ 2 ^ e) {x = suc n + k} {y = n + (k + 1)} (omega arith) fits)
          (inr (omega (arith, pow_next k, leb_false→lt x (2 ^ k) go))))
]

next_power_of_two-Least : (x : ℕ) → x ≤ 2 ^ 63 → (j : ℕ) × (next_power_of_two x ≡ 2 ^ j) × Least x j
unfolding next_power_of_two
next_power_of_two-Least x fits = double_until_lem 63 0 x fits (inl refl)

next_power_of_two_clz-Least :
    (x : ℕ) → x ≤ 2 ^ 63 → (j : ℕ) × (next_power_of_two_clz x ≡ 2 ^ j) × Least x j
unfolding next_power_of_two_clz
next_power_of_two_clz-Least x fits = elim (cases x) [
  | inl h ↦ (0, ground (arith, h), Least-of x 0 (omega (arith, h)) (inl refl))
  | inr h ↦
      let (low, high, bound) = msb_lem (x - 1) (omega arith) (omega arith) in
      (
        msb (x - 1) + 1,
        clz_high (msb (x - 1)) h low bound,
        Least-of x (msb (x - 1) + 1) (omega (arith, high))
            (inr (omega (arith, low, pow_next (msb (x - 1))))),
      )
]
  where
    cases : (x : ℕ) → (x ≤ 1) ⊎ (2 ≤ x)
    cases x = omega arith

    two_up : 2 ≤ x → ((x == 0) || (x == 1)) ≡ false
    two_up h = ground arith

    clz_high :
        (m : ℕ)
        → 2 ≤ x
        → 2 ^ m ≤ x - 1
        → m < 64
        → (if (x == 0) || (x == 1) then 1 else 2 ^ (64 - (63 - m)) % word) ≡ 2 ^ (m + 1)
    clz_high m h low bound = rw (two_up h) (
        ap (λ e. 2 ^ e % word) {y = m + 1} (omega arith) ∙ mod-eq_of_lt (omega (arith, pow_next m)))

-- `NextPowerOfTwo`, up to 2 ^ 63, is the least power of two that is at least its argument, and the
-- branch for C++20 and the one that counts leading zeros agree.
pub next_power_of_two_lem :
    (x : ℕ)
    → x ≤ 2 ^ 63
    → (j : ℕ) × (next_power_of_two x ≡ 2 ^ j)
      × (x ≤ 2 ^ j)
      × ((i : ℕ) → x ≤ 2 ^ i → j ≤ i)
      × (next_power_of_two_clz x ≡ next_power_of_two x)
next_power_of_two_lem x fits =
    let (j, e, l) = next_power_of_two-Least x fits in
    let (k, e', l') = next_power_of_two_clz-Least x fits in
    (j, e, l.enough, l.needed, e' ∙ (ap (λ i. 2 ^ i) (Least-unique x k j l' l) ∙ sym e))
