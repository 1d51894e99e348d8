-- ===== src/Prelude/Bits.antt =====
-- Laws of `&` with a mask of low bits, which the code writes as `size - 1` for a power of two.
use Prim.Native.Nat.{
  ℕ, zero, suc, ◌+◌, ◌-◌, ◌*◌, ◌/◌, ◌%◌, ◌^◌, ◌≤◌, ◌<◌, min, bit_and, digits, bit_and-bitwise,
}
use mathlib.Core.Path.{◌≡◌, refl, sym, ap, ◌∙◌}
use native.Mathlib.Nat.{
  pow-suc, mul_assoc, div-div-eq-div-mul, one-le-pow, mod_self, mul-add-mod_self_left, mod-eq_of_lt,
  mod-lt, div-add-mod,
}
use mathlib.Core.Logic.{◌⊎◌, inl, inr}
use native.Mathlib.Omega.{arith}

-- An operation digit by digit: a recursion that is deeper than the first number needs changes nothing.
module _ (z : ℕ → ℕ) (f : ℕ → ℕ → ℕ) where
  deeper : (depth a b : ℕ) → a ≤ depth → digits z f (suc depth) a b ≡ digits z f depth a b
  deeper zero zero b small = refl
  deeper zero (suc a) b small = absurd (omega arith)
  deeper (suc depth) zero b small = refl
  deeper (suc depth) (suc a) b small =
      ap (λ r. r * 2 + f (suc a % 2) (b % 2)) (deeper depth (suc a / 2) (b / 2) (omega arith))

  pub deep_enough :
      (extra depth a b : ℕ)
      → a ≤ depth
      → (k : ℕ) → k ≡ extra + depth
      → digits z f k a b ≡ digits z f depth a b
  deep_enough zero depth a b small k e = ap (λ j. digits z f j a b) {y = depth} (omega (arith, e))
  deep_enough (suc extra) depth a b small k e =
      ap (λ j. digits z f j a b) {y = suc (extra + depth)} (omega (arith, e))
      ∙ (deeper (extra + depth) a b (omega arith)
          ∙ deep_enough extra depth a b small (extra + depth) refl)

bit_and_zeros : (y : ℕ) → bit_and 0 y ≡ 0
bit_and_zeros = bit_and-bitwise 0

-- `&` digit by digit, from the lowest.
pub bit_and_step : (x y : ℕ) → bit_and x y ≡ min (x % 2) (y % 2) + bit_and (x / 2) (y / 2) * 2
bit_and_step (suc x) y =
    let half : ℕ = suc x / 2 in
    let settled =
      deep_enough (λ b. 0) min (x - half) half half (y / 2) (omega arith) x (omega arith) in
    omega (arith, settled, bit_and-bitwise half (y / 2), bit_and-bitwise (suc x) y)
bit_and_step zero y = omega (bit_and_zeros (y / 2), bit_and_zeros y, arith)

none_below : (bound a : ℕ) → a < bound → bit_and a 0 ≡ 0
none_below zero a less = absurd (omega arith)
none_below (suc bound) zero less = bit_and_zeros 0
none_below (suc bound) (suc a) less =
    let half = none_below bound (suc a / 2) (omega arith) in
    omega (arith, half, bit_and_step (suc a) 0)

pub bit_and-zero : (a : ℕ) → bit_and a 0 ≡ 0
bit_and-zero a = none_below (suc a) a (omega arith)

-- The remainder by twice a number is read off its half.
mod_double : (a m : ℕ) → 0 < m → a % (m * 2) ≡ a / 2 % m * 2 + a % 2
mod_double a m h =
    (ap (λ k. k % (m * 2)) split ∙ mul-add-mod_self_left (m * 2) (a / 2 / m) r) ∙ mod-eq_of_lt below
  where
    r : ℕ
    r = a / 2 % m * 2 + a % 2

    split : a ≡ m * 2 * (a / 2 / m) + r
    split = omega (arith, div-add-mod (a / 2) m)

    below : r < m * 2
    below = omega (arith, mod-lt (a / 2) h)

pub bit_and-mask : (k a : ℕ) → bit_and a (2 ^ k - 1) ≡ a % 2 ^ k
bit_and-mask zero a = omega (arith, bit_and-zero a)
bit_and-mask (suc k) a = ground (
  arith,
  pow-suc 2 k,
  one-le-pow k 2,
  bit_and_step a (2 ^ suc k - 1),
  half,
  bit_and-mask k (a / 2),
  mod_double a (2 ^ k) (omega (arith, one-le-pow k 2)),
)
  where
    half : (2 ^ suc k - 1) / 2 ≡ 2 ^ k - 1
    half = omega (arith, pow-suc 2 k, one-le-pow k 2)

pub bit_and-one : (a : ℕ) → bit_and a 1 ≡ a % 2
bit_and-one a = bit_and-mask 1 a

bit_and_self_fuel : (n a : ℕ) → a ≤ n → bit_and a a ≡ a
bit_and_self_fuel n zero h = bit_and_zeros 0
bit_and_self_fuel zero (suc a) h = absurd (omega arith)
bit_and_self_fuel (suc n) (suc a) h =
    omega (arith, bit_and_step (suc a) (suc a), bit_and_self_fuel n (suc a / 2) (omega arith))

-- The usual test for a power of two: `x & (x - 1)` clears the lowest bit.
power_of_two_fuel : (n a : ℕ) → a ≤ n → 0 < a → bit_and a (a - 1) ≡ 0 → (k : ℕ) × (a ≡ 2 ^ k)
power_of_two_fuel zero a h pos e = absurd (omega arith)
power_of_two_fuel (suc n) a h pos e = elim (parity a) [
  | inl even ↦
      let (k, q) = power_of_two_fuel n (a / 2) (omega arith) (omega arith) (halved even) in
      (suc k, omega (arith, q, pow-suc 2 k))
  | inr odd ↦ (0, omega (arith, cleared odd))
]
  where
    parity : (b : ℕ) → (b % 2 ≡ 0) ⊎ (b % 2 ≡ 1)
    parity b = omega arith

    halved : a % 2 ≡ 0 → bit_and (a / 2) (a / 2 - 1) ≡ 0
    halved even =
        let e' : (a - 1) / 2 ≡ a / 2 - 1 = omega arith in
        rw (← e') (omega (arith, bit_and_step a (a - 1)))

    cleared : a % 2 ≡ 1 → a / 2 ≡ 0
    cleared odd =
        let e' : (a - 1) / 2 ≡ a / 2 = omega arith in
        omega (
          arith,
          bit_and_step a (a - 1),
          ap (bit_and (a / 2)) e',
          bit_and_self_fuel (a / 2) (a / 2) (omega arith),
        )

pub power_of_two : (a : ℕ) → 0 < a → bit_and a (a - 1) ≡ 0 → (k : ℕ) × (a ≡ 2 ^ k)
power_of_two a = power_of_two_fuel a a (omega arith)

pub two_power_cleared : (k : ℕ) → bit_and (2 ^ k) (2 ^ k - 1) ≡ 0
two_power_cleared k = bit_and-mask k (2 ^ k) ∙ mod_self (2 ^ k)

bit_and_double : (a b : ℕ) → bit_and a (b * 2) ≡ bit_and (a / 2) b * 2
bit_and_double a b =
    let half : b * 2 / 2 ≡ b = omega arith in
    omega (arith, bit_and_step a (b * 2), ap (bit_and (a / 2)) half)

pub shifted : (x m : ℕ) → x * 2 ^ suc m ≡ x * 2 ^ m * 2
shifted x m = ap (λ p. x * p) (pow-suc 2 m) ∙ sym (mul_assoc x (2 ^ m) 2)

-- A mask of high bits drops the low digits, and those past its width.
pub bit_and-high : (k m a : ℕ) → bit_and a ((2 ^ k - 1) * 2 ^ m) ≡ a / 2 ^ m % 2 ^ k * 2 ^ m
bit_and-high k zero a =
    ap (bit_and a) {y = 2 ^ k - 1} (omega arith) ∙ (bit_and-mask k a ∙ ground arith)
bit_and-high k (suc m) a =
    ap (bit_and a) (shifted (2 ^ k - 1) m)
    ∙ (bit_and_double a ((2 ^ k - 1) * 2 ^ m)
        ∙ (ap (λ x. x * 2) (bit_and-high k m (a / 2))
            ∙ (sym (shifted (a / 2 / 2 ^ m % 2 ^ k) m) ∙ ap (λ q. q % 2 ^ k * 2 ^ suc m) halved)))
  where
    halved : a / 2 / 2 ^ m ≡ a / 2 ^ suc m
    halved = div-div-eq-div-mul a 2 (2 ^ m) ∙ ap (λ p. a / p) (omega (arith, pow-suc 2 m))
