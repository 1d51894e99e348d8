-- ===== src/TimerWheel/Range.antt =====
-- The delay that `schedule_in_range` chooses.
use godby.Prelude.{
  ℕ, zero, suc, ◌+◌, ◌-◌, ◌*◌, ◌/◌, ◌%◌, ◌^◌, ◌≤◌, ◌<◌, ◌≡◌, ◌≢◌, refl, sym, ◌∙◌, ap, subst,
  bit_and, Bool, true, false, arith, ◌⊎◌, inl, inr, ◌==◌, ==_iff, Bool-cases,
}
use godby.Prelude.Bits.{bit_and-high, bit_and-mask}
use godby.TimerWheel.{tick, bit_width}
use godby.TimerWheel.Run.{common_mask, range_delta}
use native.Mathlib.Nat.{
  mod-eq_of_lt, one-le-pow, le-div_iff_mul-le, mul-div_cancel, mul-le-mul_right, div-mul-le_self,
  lt-div-mul-add,
}

-- 256 ^ k, and the mask whose `k` low bytes are 0.
pub byte : ℕ → ℕ
byte k = 2 ^ (8 * k)

mask_of : ℕ → ℕ
mask_of k = (2 ^ (8 * (8 - k)) - 1) * 2 ^ (8 * k)

up_to_eight :
    (P : ℕ → Type 0) → P 0 → P 1 → P 2 → P 3 → P 4 → P 5 → P 6 → P 7 → P 8 → (k : ℕ) → k < 9 → P k
up_to_eight P a b c d e f g h i zero l = a
up_to_eight P a b c d e f g h i (suc zero) l = b
up_to_eight P a b c d e f g h i (suc (suc zero)) l = c
up_to_eight P a b c d e f g h i (suc (suc (suc zero))) l = d
up_to_eight P a b c d e f g h i (suc (suc (suc (suc zero)))) l = e
up_to_eight P a b c d e f g h i (suc (suc (suc (suc (suc zero))))) l = f
up_to_eight P a b c d e f g h i (suc (suc (suc (suc (suc (suc zero)))))) l = g
up_to_eight P a b c d e f g h i (suc (suc (suc (suc (suc (suc (suc zero))))))) l = h
up_to_eight P a b c d e f g h i (suc (suc (suc (suc (suc (suc (suc (suc zero)))))))) l = i
up_to_eight P a b c d e f g h i (suc (suc (suc (suc (suc (suc (suc (suc (suc k))))))))) l =
    absurd (omega arith)

-- `mask << 8` and `mask >> 8`, in 64 bits.
mask_left : (k : ℕ) → k < 9 → mask_of k * 2 ^ bit_width % tick ≡ mask_of (suc k)
unfolding mask_of
mask_left =
    up_to_eight (λ k. mask_of k * 2 ^ bit_width % tick ≡ mask_of (suc k)) refl refl refl refl refl
      refl refl refl refl

mask_right :
    (k : ℕ) → k < 9 → mask_of (suc k) / 2 ^ bit_width ≡ (2 ^ (8 * (7 - k)) - 1) * 2 ^ (8 * k)
unfolding mask_of
mask_right =
    up_to_eight (λ k. mask_of (suc k) / 2 ^ bit_width ≡ (2 ^ (8 * (7 - k)) - 1) * 2 ^ (8 * k)) refl
      refl refl refl refl refl refl refl refl

byte_small : (k : ℕ) → k < 9 → (a : ℕ) → a < tick → a / byte k < 2 ^ (8 * (8 - k))
unfolding byte
byte_small =
    up_to_eight (λ k. (a : ℕ) → a < tick → a / byte k < 2 ^ (8 * (8 - k))) (λ a l. omega arith)
      (λ a l. omega arith) (λ a l. omega arith) (λ a l. omega arith) (λ a l. omega arith)
      (λ a l. omega arith) (λ a l. omega arith) (λ a l. omega arith) (λ a l. omega arith)

byte_smaller : (k : ℕ) → k < 9 → (a : ℕ) → a < 2 ^ 56 → a / byte k < 2 ^ (8 * (7 - k))
unfolding byte
byte_smaller =
    up_to_eight (λ k. (a : ℕ) → a < 2 ^ 56 → a / byte k < 2 ^ (8 * (7 - k))) (λ a l. omega arith)
      (λ a l. omega arith) (λ a l. omega arith) (λ a l. omega arith) (λ a l. omega arith)
      (λ a l. omega arith) (λ a l. omega arith) (λ a l. omega arith) (λ a l. omega arith)

-- With the mask, the low bytes count for nothing.
bit_and-mask_of : (k a : ℕ) → k < 9 → a < tick → bit_and a (mask_of k) ≡ a / byte k * byte k
unfolding mask_of byte
bit_and-mask_of k a h l =
    bit_and-high (8 * (8 - k)) (8 * k) a
    ∙ ap (λ q. q * 2 ^ (8 * k)) (mod-eq_of_lt (byte_small k h a l))

byte_positive : (k : ℕ) → 0 < byte k
unfolding byte
byte_positive k = one-le-pow (8 * k) 2 (omega arith)

byte_none : byte 0 ≡ 1
unfolding byte
byte_none = refl

cancel_byte : (k : ℕ) {a b : ℕ} → a * byte k ≡ b * byte k → a ≡ b
cancel_byte k {a} {b} e =
    sym (mul-div_cancel a (byte_positive k))
    ∙ (ap (λ x. x / byte k) e ∙ mul-div_cancel b (byte_positive k))

-- Where the loop stops: at the lowest `k` for which the ticks agree above their `k + 1` low bytes.
record Stop (start end : ℕ) (mask : ℕ) : Type 0 where
  pub k : ℕ
  pub low : k < 8
  pub result : mask ≡ mask_of (suc k)
  pub differ : start / byte k < end / byte k
  pub agree : start / byte (suc k) ≡ end / byte (suc k)

lower : (start end : ℕ) → end < tick → (k : ℕ) → k < 9 → start / byte k < end / byte k → k < 8
unfolding byte
lower start end small =
    up_to_eight (λ k. start / byte k < end / byte k → k < 8) (λ d. omega arith) (λ d. omega arith)
      (λ d. omega arith) (λ d. omega arith) (λ d. omega arith) (λ d. omega arith) (λ d. omega arith)
      (λ d. omega arith) (λ d. omega arith)

common_mask_next :
    (n start end mask : ℕ)
    → (bit_and start mask == bit_and end mask) ≡ false
    → common_mask (suc n) start end mask ≡ common_mask n start end (mask * 2 ^ bit_width % tick)
unfolding common_mask
common_mask_next n start end mask ne = rw ne refl

module _ (start end : ℕ) (order : start < end) (small : end < tick) where
  differ_of :
      (k : ℕ) → start / byte k * byte k ≢ end / byte k * byte k → start / byte k < end / byte k
  differ_of k ne = elim le_cases [
    | inl less ↦ less
    | inr same ↦ absurd (ne (ap (λ q. q * byte k) same))
  ]
    where
      le : start / byte k ≤ end / byte k
      le = (le-div_iff_mul-le (byte_positive k)).1 (omega (arith, div-mul-le_self start (byte k)))

      le_cases : (start / byte k < end / byte k) ⊎ (start / byte k ≡ end / byte k)
      le_cases = omega (arith, le)

  common_mask-Stop :
      (n k : ℕ)
      → n + k ≡ 8
      → start / byte k < end / byte k
      → k < 8
      → Stop start end (common_mask (suc n) start end (mask_of (suc k)))
  unfolding common_mask
  common_mask-Stop zero k e differ low = absurd (omega arith)
  common_mask-Stop (suc n) k e differ low = elim (Bool-cases same) [
    | inl eq ↦
        rw eq (record { k = k; low = low; result = refl; differ = differ; agree = together eq })
    | inr ne ↦
        let more = differ_of (suc k) (apart ne) in
        rw (ne, mask_left (suc k) (omega arith))
          (common_mask-Stop n (suc k) (omega arith) more
            (lower start end small (suc k) (omega arith) more))
  ]
    where
      same : Bool
      same = bit_and start (mask_of (suc k)) == bit_and end (mask_of (suc k))

      masked_start : bit_and start (mask_of (suc k)) ≡ start / byte (suc k) * byte (suc k)
      masked_start = bit_and-mask_of (suc k) start (omega arith) (omega arith)

      masked_end : bit_and end (mask_of (suc k)) ≡ end / byte (suc k) * byte (suc k)
      masked_end = bit_and-mask_of (suc k) end (omega arith) small

      together : same ≡ true → start / byte (suc k) ≡ end / byte (suc k)
      together eq = cancel_byte (suc k) (sym masked_start ∙ ((==_iff _ _).0 eq ∙ masked_end))

      apart : same ≡ false → start / byte (suc k) * byte (suc k) ≢ end / byte (suc k) * byte (suc k)
      apart ne e =
          let h : bit_and start (mask_of (suc k)) ≡ bit_and end (mask_of (suc k)) =
            masked_start ∙ (e ∙ sym masked_end) in
          ground
            (arith, (==_iff (bit_and start (mask_of (suc k))) (bit_and end (mask_of (suc k)))).1 h)

  found : Stop start end (common_mask 10 start end (tick - 1))
  unfolding mask_of
  found =
      subst (Stop start end)
        (sym (
          common_mask_next 9 start end (mask_of 0) first_apart
          ∙ ap (common_mask 9 start end) (mask_left 0 (omega arith))))
        (common_mask-Stop 8 0 refl (omega (arith, byte_zero start, byte_zero end)) (omega arith))
    where
      byte_zero : (a : ℕ) → a / byte 0 ≡ a
      byte_zero a = ap (λ b. a / b) byte_none ∙ omega arith

      first_apart : (bit_and start (tick - 1) == bit_and end (tick - 1)) ≡ false
      first_apart = ground (
        arith,
        bit_and-mask 64 start,
        bit_and-mask 64 end,
        (==_iff (bit_and start (tick - 1)) (bit_and end (tick - 1))).0,
      )

  delta : end < 2 ^ 56 → range_delta start end ≡ end / byte found.k * byte found.k
  unfolding range_delta byte
  delta below =
      ap (λ m. bit_and end (m / 2 ^ bit_width)) found.result
      ∙ (ap (bit_and end) (mask_right found.k (omega (arith, found.low)))
          ∙ (bit_and-high (8 * (7 - found.k)) (8 * found.k) end
              ∙ ap (λ q. q * 2 ^ (8 * found.k))
                  (mod-eq_of_lt (byte_smaller found.k (omega (arith, found.low)) end below))))

  above : start < end / byte found.k * byte found.k
  above = omega (
    arith,
    lt-div-mul-add {a = start} (byte_positive found.k),
    mul-le-mul_right {m = suc (start / byte found.k)} (byte found.k) found.differ,
  )

  -- For a range below 2 ^ 56, the delay lies in it after its start, and it is the end of the range with
  -- as many low bytes cleared as can be: `start` and `end` agree above the first byte that is kept.
  pub range_delta_lem :
      end < 2 ^ 56
      → (k : ℕ) × (range_delta start end ≡ end / byte k * byte k)
        × (start < range_delta start end)
        × (range_delta start end ≤ end)
        × (start / byte (suc k) ≡ end / byte (suc k))
  range_delta_lem below = (
    found.k,
    delta below,
    omega (arith, delta below, above),
    omega (arith, delta below, div-mul-le_self end (byte found.k)),
    found.agree,
  )
