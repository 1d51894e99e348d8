-- ===== src/Math/Power.antt =====
-- `IsPrime_power` is the power modulo its third argument, and its products stay below 2 ^ 64.
use godby.Prelude.{
  ℕ, zero, suc, ◌+◌, ◌-◌, ◌*◌, ◌/◌, ◌%◌, ◌^◌, ◌<◌, ◌≡◌, sym, ◌∙◌, ap, bit_and, arith, inl, inr,
  ◌==◌, ==_iff, if◌then◌else◌, Bool-cases,
}
use godby.Prelude.Bits.{bit_and-one}
use godby.Math.{unsigned, mul, power_loop, is_prime_power}
use native.Mathlib.Nat.{
  mod-eq_of_lt, mod-lt, pow-suc, pow-zero, mul-le-mul, mul_comm, mul_assoc, mul-one, one-mul,
  div-add-mod, mul-add-mod_self_left, add-mul,
}

-- A factor counts by its remainder.
mod-mul_left : (m a b : ℕ) → (a % m * b) % m ≡ (a * b) % m
mod-mul_left m a b = sym (mul-add-mod_self_left m (a / m * b) (a % m * b)) ∙ ap (λ x. x % m) whole
  where
    whole : m * (a / m * b) + a % m * b ≡ a * b
    whole =
        ap (λ x. x + a % m * b) (sym (mul_assoc m (a / m) b))
        ∙ (sym (add-mul (m * (a / m)) (a % m) b) ∙ ap (λ x. x * b) (div-add-mod a m))

mod-mul_right : (m a b : ℕ) → (a * (b % m)) % m ≡ (a * b) % m
mod-mul_right m a b =
    ap (λ x. x % m) (mul_comm a (b % m)) ∙ (mod-mul_left m b a ∙ ap (λ x. x % m) (mul_comm b a))

mod-pow : (m a k : ℕ) → (a % m) ^ k % m ≡ a ^ k % m
mod-pow m a zero = ap (λ x. x % m) (pow-zero (a % m) ∙ sym (pow-zero a))
mod-pow m a (suc k) =
    ap (λ x. x % m) (pow-suc (a % m) k)
    ∙ (mod-mul_right m ((a % m) ^ k) a
        ∙ (sym (mod-mul_left m ((a % m) ^ k) a)
            ∙ (ap (λ x. (x * a) % m) (mod-pow m a k)
                ∙ (mod-mul_left m (a ^ k) a ∙ ap (λ x. x % m) (sym (pow-suc a k))))))

pow_square : (a k : ℕ) → (a * a) ^ k ≡ a ^ (k * 2)
pow_square a zero = pow-zero (a * a) ∙ sym (pow-zero a)
pow_square a (suc k) =
    pow-suc (a * a) k
    ∙ (ap (λ x. x * (a * a)) (pow_square a k)
        ∙ (sym (mul_assoc (a ^ (k * 2)) a a)
            ∙ (ap (λ x. x * a) (sym (pow-suc a (k * 2)))
                ∙ (sym (pow-suc a (suc (k * 2))) ∙ ap (λ e. a ^ e) (omega arith)))))

no_overflow : (a b : ℕ) → a < unsigned → b < unsigned → mul a b ≡ a * b
no_overflow a b h h' = mod-eq_of_lt (
    omega (
      arith,
      mul-le-mul {n₁ = a} {m₁ = b} {n₂ = unsigned - 1} {m₂ = unsigned - 1} (omega arith)
          (omega arith),
    ))

-- One squaring: the power that is left, over the square's remainder.
squared : (m r a h : ℕ) → (r * (a * a % m) ^ h) % m ≡ (r * a ^ (h * 2)) % m
squared m r a h =
    sym (mod-mul_right m r ((a * a % m) ^ h))
    ∙ (ap (λ x. (r * x) % m) (mod-pow m (a * a) h)
        ∙ (mod-mul_right m r ((a * a) ^ h) ∙ ap (λ x. (r * x) % m) (pow_square a h)))

odd_step : (m r a k : ℕ) → (r * a % m * a ^ k) % m ≡ (r * a ^ suc k) % m
odd_step m r a k =
    mod-mul_left m (r * a) (a ^ k)
    ∙ ap (λ x. x % m)
        (mul_assoc r a (a ^ k) ∙ ap (λ x. r * x) (mul_comm a (a ^ k) ∙ sym (pow-suc a k)))

module _ (m : ℕ) (pos : 1 < m) (small : m < unsigned) where
  none_left : (n power result : ℕ) → n ≡ 0 → result < m → result ≡ (result * power ^ n) % m
  none_left n power result e below = sym (
      ap (λ k. (result * power ^ k) % m) e
      ∙ (ap (λ x. (result * x) % m) (pow-zero power)
          ∙ (ap (λ x. x % m) (mul-one result) ∙ mod-eq_of_lt below)))

  -- The result after the lowest digit of the exponent.
  next_result : ℕ → ℕ → ℕ → ℕ
  next_result n power result = if bit_and n 1 == 1 then mul result power % m else result

  next_result_below : (n power result : ℕ) → result < m → next_result n power result < m
  unfolding next_result
  next_result_below n power result below = elim (Bool-cases (bit_and n 1 == 1)) [
    | inl odd ↦ rw odd (mod-lt (mul result power) (omega arith))
    | inr even ↦ rw even below
  ]

  next_result_lem :
      (n power result : ℕ)
      → power < unsigned
      → result < m
      → (next_result n power result * power ^ (n / 2 * 2)) % m ≡ (result * power ^ n) % m
  unfolding next_result
  next_result_lem n power result low below = elim (Bool-cases (bit_and n 1 == 1)) [
    | inl odd ↦ rw odd (
        ap (λ x. (x % m * power ^ (n / 2 * 2)) % m) (no_overflow result power (omega arith) low)
        ∙ (odd_step m result power (n / 2 * 2)
            ∙ ap (λ k. (result * power ^ k) % m) {x = suc (n / 2 * 2)}
                (omega (arith, bit_and-one n, (==_iff (bit_and n 1) 1).0 odd))))
    | inr even ↦ rw even (
        ap (λ k. (result * power ^ k) % m)
          (ground (arith, bit_and-one n, (==_iff (bit_and n 1) 1).1)))
  ]

  power_loop_lem :
      (bits n power result : ℕ)
      → n < 2 ^ bits
      → power < unsigned
      → result < m
      → power_loop bits n power result m ≡ (result * power ^ n) % m
  unfolding power_loop next_result
  power_loop_lem zero n power result fits low below = none_left n power result (omega arith) below
  power_loop_lem (suc bits) n power result fits low below = elim (Bool-cases (n == 0)) [
    | inl h ↦ rw h (none_left n power result ((==_iff n 0).0 h) below)
    | inr h ↦ rw h (
        power_loop_lem bits (n / 2) (mul power power % m) (next_result n power result)
          (omega (arith, pow-suc 2 bits))
          (omega (arith, mod-lt (mul power power) {m = m} (omega arith)))
          (next_result_below n power result below)
        ∙ (ap (λ x. (next_result n power result * (x % m) ^ (n / 2)) % m)
              (no_overflow power power low low)
            ∙ (squared m (next_result n power result) power (n / 2)
                ∙ next_result_lem n power result low below)))
  ]

-- `IsPrime_power` is the power modulo `m`, for 32-bit arguments and a modulus above 1: no product that
-- it forms overflows 64 bits.
is_prime_power_lem :
    (a n m : ℕ)
    → a < unsigned
    → n < unsigned
    → 1 < m
    → m < unsigned
    → is_prime_power a n m ≡ a ^ n % m
unfolding is_prime_power
is_prime_power_lem a n m small_a small_n pos small =
    power_loop_lem m pos small 32 n a 1 small_n small_a pos ∙ ap (λ x. x % m) (one-mul (a ^ n))
