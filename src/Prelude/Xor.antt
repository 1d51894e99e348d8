-- ===== src/Prelude/Xor.antt =====
-- Laws of the exclusive or, with which the code swaps two groups of bits.
use Prim.Native.Nat.{
  ℕ, zero, suc, ◌+◌, ◌-◌, ◌*◌, ◌/◌, ◌%◌, ◌^◌, ◌<◌, differ, bit_xor, bit_xor-bitwise,
}
use mathlib.Core.Path.{◌≡◌, refl, sym, ap₂, ◌∙◌}
use native.Mathlib.Nat.{pow-suc}
use native.Mathlib.Omega.{arith}
use godby.Prelude.Bits.{deep_enough, shifted}

differ-zero : (x : ℕ) → differ x 0 ≡ x
differ-zero zero = refl
differ-zero (suc x) = refl

differ_lem :
    (x y : ℕ)
    → x < 2
    → y < 2
    → (differ x y < 2) × (differ x (differ x y) ≡ y) × (differ y (differ x y) ≡ x)
differ_lem zero zero h h' = (omega arith, refl, refl)
differ_lem zero (suc zero) h h' = (omega arith, refl, refl)
differ_lem (suc zero) zero h h' = (omega arith, refl, refl)
differ_lem (suc zero) (suc zero) h h' = (omega arith, refl, refl)
differ_lem (suc (suc x)) y h h' = absurd (omega arith)
differ_lem zero (suc (suc y)) h h' = absurd (omega arith)
differ_lem (suc zero) (suc (suc y)) h h' = absurd (omega arith)

bit_xor_step : (x y : ℕ) → bit_xor x y ≡ differ (x % 2) (y % 2) + bit_xor (x / 2) (y / 2) * 2
bit_xor_step (suc x) y =
    let half : ℕ = suc x / 2 in
    let settled =
      deep_enough (λ b. b) differ (x - half) half half (y / 2) (omega arith) x (omega arith) in
    omega (arith, settled, bit_xor-bitwise half (y / 2), bit_xor-bitwise (suc x) y)
bit_xor_step zero y = omega (bit_xor-bitwise 0 (y / 2), bit_xor-bitwise 0 y, arith)

zero_below : (bound a : ℕ) → a < bound → bit_xor a 0 ≡ a
zero_below zero a less = absurd (omega arith)
zero_below (suc bound) zero less = bit_xor-bitwise 0 0
zero_below (suc bound) (suc a) less = omega (
  arith,
  zero_below bound (suc a / 2) (omega arith),
  bit_xor_step (suc a) 0,
  differ-zero (suc a % 2),
)

pub bit_xor-zero : (a : ℕ) → bit_xor a 0 ≡ a
bit_xor-zero a = zero_below (suc a) a (omega arith)

-- The exclusive or of two numbers, with either of them, gives the other.
pub bit_xor_lem :
    (k a c : ℕ)
    → a < 2 ^ k
    → c < 2 ^ k
    → (bit_xor a c < 2 ^ k) × (bit_xor a (bit_xor a c) ≡ c) × (bit_xor c (bit_xor a c) ≡ a)
bit_xor_lem zero zero zero h h' = (omega arith, refl, refl)
bit_xor_lem zero (suc a) c h h' = absurd (omega arith)
bit_xor_lem zero zero (suc c) h h' = absurd (omega arith)
bit_xor_lem (suc k) a c h h' =
    let small : 2 ^ suc k ≡ 2 ^ k * 2 = pow-suc 2 k in
    let (low, first, second) = bit_xor_lem k (a / 2) (c / 2) (omega arith) (omega arith) in
    let (digit, first_digit, second_digit) =
      differ_lem (a % 2) (c % 2) (omega arith) (omega arith) in
    (
      omega (arith, bit_xor_step a c),
      again a ∙ (ap₂ (λ x y. x + y * 2) first_digit first ∙ omega arith),
      again c ∙ (ap₂ (λ x y. x + y * 2) second_digit second ∙ omega arith),
    )
  where
    digit_below : differ (a % 2) (c % 2) < 2
    digit_below = (differ_lem (a % 2) (c % 2) (omega arith) (omega arith)).0

    again :
        (x : ℕ)
        → bit_xor x (bit_xor a c)
          ≡ differ (x % 2) (differ (a % 2) (c % 2)) + bit_xor (x / 2) (bit_xor (a / 2) (c / 2)) * 2
    again x =
        bit_xor_step x (bit_xor a c)
        ∙ ap₂ (λ d r. differ (x % 2) d + bit_xor (x / 2) r * 2) {x = bit_xor a c % 2}
            (omega (arith, bit_xor_step a c, digit_below))
            (omega (arith, bit_xor_step a c, digit_below))

-- The low digits and the high ones are taken apart.
pub bit_xor-split :
    (k a b c d : ℕ)
    → a < 2 ^ k
    → c < 2 ^ k
    → bit_xor (a + b * 2 ^ k) (c + d * 2 ^ k) ≡ bit_xor a c + bit_xor b d * 2 ^ k
bit_xor-split zero (suc a) b c d h h' = absurd (omega arith)
bit_xor-split zero zero b (suc c) d h h' = absurd (omega arith)
bit_xor-split zero zero b zero d h h' = ap₂ bit_xor (whole b) (whole d) ∙ sym (whole (bit_xor b d))
  where
    whole : (x : ℕ) → 0 + x * 2 ^ 0 ≡ x
    whole x = omega arith
bit_xor-split (suc k) a b c d h h' =
    bit_xor_step (a + b * 2 ^ suc k) (c + d * 2 ^ suc k)
    ∙ (ap₂ (λ x y. x + y * 2) (ap₂ differ (last_digit a b) (last_digit c d))
          (ap₂ bit_xor (others a b) (others c d)
            ∙ bit_xor-split k (a / 2) b (c / 2) d (below a h) (below c h'))
        ∙ omega (arith, bit_xor_step a c, shifted (bit_xor b d) k))
  where
    last_digit : (x y : ℕ) → (x + y * 2 ^ suc k) % 2 ≡ x % 2
    last_digit x y = omega (arith, shifted y k)

    others : (x y : ℕ) → (x + y * 2 ^ suc k) / 2 ≡ x / 2 + y * 2 ^ k
    others x y = omega (arith, shifted y k)

    below : (x : ℕ) → x < 2 ^ suc k → x / 2 < 2 ^ k
    below x less = omega (arith, pow-suc 2 k)
