-- ===== src/AtomicQueue/Remap.antt =====
-- `remap_index` in AtomicQueue.h, which swaps the bits that tell an element within its cache line with
-- as many bits of the line.
use native.Mathlib.Nat.{
  add-mul-div_right, add-mul-mod_self_right, mod-eq_of_lt, mod-add-div', div-eq_of_lt, mod-lt,
  one-le-pow, pow-suc, mul_right_comm, pow-le-pow_right, mul-le-mul_right,
}
use godby.Prelude.{
  ℕ, zero, suc, ◌-◌, ◌+◌, ◌*◌, ◌/◌, ◌%◌, ◌^◌, ◌≤◌, ◌<◌, ◌≡◌, refl, sym, ◌∙◌, ap, subst, ap₂,
  bit_and, bit_xor, arith, dec_lt,
}
use godby.Prelude.Bits.{bit_and-mask}
use godby.Prelude.Xor.{bit_xor-zero, bit_xor_lem, bit_xor-split}
use godby.AtomicQueue.Indices.{unsigned}

unfoldable pub remap_index : ℕ → ℕ → ℕ
remap_index zero index = index
remap_index (suc n) index =
    let bits = suc n in
    let mix_mask = 2 ^ bits - 1 in
    let mix = bit_and (bit_xor index (index / 2 ^ bits)) mix_mask in
    bit_xor (bit_xor index mix) (mix * 2 ^ bits % unsigned)

pow_add : (m n : ℕ) → 2 ^ (m + n) ≡ 2 ^ m * 2 ^ n
pow_add zero n = ap (λ e. 2 ^ e) {y = n} (omega arith) ∙ omega arith
pow_add (suc m) n =
    ap (λ e. 2 ^ e) {y = suc (m + n)} (omega arith)
    ∙ (pow-suc 2 (m + n)
        ∙ (ap (λ x. x * 2) (pow_add m n)
            ∙ (mul_right_comm (2 ^ m) (2 ^ n) 2 ∙ ap (λ x. x * 2 ^ n) (sym (pow-suc 2 m)))))

square : (b : ℕ) → 2 ^ (b * 2) ≡ 2 ^ b * 2 ^ b
square b = ap (λ e. 2 ^ e) {y = b + b} (omega arith) ∙ pow_add b b

module _ (b a c h : ℕ) (low : a < 2 ^ b) (next : c < 2 ^ b) where
  -- An index whose lowest groups of bits are `a` and `c`.
  abbrev index_of : ℕ
  index_of = a + (c + h * 2 ^ b) * 2 ^ b

  shifted_down : index_of / 2 ^ b ≡ c + h * 2 ^ b
  shifted_down =
      add-mul-div_right a (c + h * 2 ^ b) (omega (arith, one-le-pow b 2))
      ∙ omega (arith, div-eq_of_lt low)

  mix_lem : bit_and (bit_xor index_of (index_of / 2 ^ b)) (2 ^ b - 1) ≡ bit_xor a c
  mix_lem =
      ap (λ q. bit_and (bit_xor index_of q) (2 ^ b - 1)) shifted_down
      ∙ (bit_and-mask b (bit_xor index_of (c + h * 2 ^ b))
          ∙ (ap (λ x. x % 2 ^ b) (bit_xor-split b a (c + h * 2 ^ b) c h low next)
              ∙ (add-mul-mod_self_right (bit_xor a c) (bit_xor (c + h * 2 ^ b) h) (2 ^ b)
                  ∙ mod-eq_of_lt (bit_xor_lem b a c low next).0)))

  -- The lowest bits become those of the line.
  first_lem : bit_xor index_of (bit_xor a c) ≡ c + (c + h * 2 ^ b) * 2 ^ b
  first_lem =
      ap (bit_xor index_of) {y = bit_xor a c + 0 * 2 ^ b} (omega arith)
      ∙ (bit_xor-split b a (c + h * 2 ^ b) (bit_xor a c) 0 low (bit_xor_lem b a c low next).0
          ∙ ap₂ (λ x y. x + y * 2 ^ b) (bit_xor_lem b a c low next).1
              (bit_xor-zero (c + h * 2 ^ b)))

  -- The bits of the line become the lowest ones.
  line_lem : bit_xor (c + h * 2 ^ b) (bit_xor a c) ≡ a + h * 2 ^ b
  line_lem =
      ap (bit_xor (c + h * 2 ^ b)) {y = bit_xor a c + 0 * 2 ^ b} (omega arith)
      ∙ (bit_xor-split b c h (bit_xor a c) 0 next (bit_xor_lem b a c low next).0
          ∙ ap₂ (λ x y. x + y * 2 ^ b) (bit_xor_lem b a c low next).2 (bit_xor-zero h))

  second_lem :
      bit_xor (c + (c + h * 2 ^ b) * 2 ^ b) (bit_xor a c * 2 ^ b) ≡ c + (a + h * 2 ^ b) * 2 ^ b
  second_lem =
      ap (bit_xor (c + (c + h * 2 ^ b) * 2 ^ b)) {y = 0 + bit_xor a c * 2 ^ b} (omega arith)
      ∙ bit_xor-split b c (c + h * 2 ^ b) 0 (bit_xor a c) next (omega (arith, one-le-pow b 2))
      ∙ ap₂ (λ x y. x + y * 2 ^ b) (bit_xor-zero c) line_lem

  no_wrap : b * 2 ≤ 32 → bit_xor a c * 2 ^ b % unsigned ≡ bit_xor a c * 2 ^ b
  no_wrap small = mod-eq_of_lt (
      omega (
        arith,
        mul-le-mul_right {m = bit_xor a c + 1} {n = 2 ^ b} (2 ^ b)
            (omega (arith, (bit_xor_lem b a c low next).0)),
        square b,
        pow-le-pow_right {n = 2} (omega arith) small,
        one-le-pow b 2,
      ))

-- The two groups of bits change places.
swapped :
    (b a c h : ℕ)
    → a < 2 ^ b
    → c < 2 ^ b
    → b * 2 ≤ 32
    → remap_index b (a + (c + h * 2 ^ b) * 2 ^ b) ≡ c + (a + h * 2 ^ b) * 2 ^ b
unfolding remap_index
swapped zero a c h low next small =
    ap₂ (λ x y. x + (y + h * 2 ^ 0) * 2 ^ 0) {x = a} {y = c} (omega arith) (omega arith)
swapped (suc n) a c h low next small =
    ap (λ x. bit_xor (bit_xor (index_of (suc n) a c h low next) x) (x * 2 ^ suc n % unsigned))
      (mix_lem (suc n) a c h low next)
    ∙ (ap₂ bit_xor (first_lem (suc n) a c h low next) (no_wrap (suc n) a c h low next small)
        ∙ second_lem (suc n) a c h low next)

-- The groups of bits of an index.
index_groups : (b i : ℕ) → i ≡ i % 2 ^ b + (i / 2 ^ b % 2 ^ b + i / 2 ^ b / 2 ^ b * 2 ^ b) * 2 ^ b
index_groups b i =
    sym (mod-add-div' i (2 ^ b))
    ∙ ap (λ q. i % 2 ^ b + q * 2 ^ b) (sym (mod-add-div' (i / 2 ^ b) (2 ^ b)))

spread : (b x y h : ℕ) → x + (y + h * 2 ^ b) * 2 ^ b ≡ x + y * 2 ^ b + h * (2 ^ b * 2 ^ b)
spread b x y h = grind arith

-- The numbers below a multiple of the square are kept by an exchange of the groups.
below_lem :
    (b a c h m : ℕ)
    → a < 2 ^ b
    → c < 2 ^ b
    → a + (c + h * 2 ^ b) * 2 ^ b < m * (2 ^ b * 2 ^ b)
    → c + (a + h * 2 ^ b) * 2 ^ b < m * (2 ^ b * 2 ^ b)
below_lem b a c h m low next less = elim (dec_lt h m) [
  | yes few ↦ omega (
    arith,
    spread b c a h,
    mul-le-mul_right {m = a + 1} {n = 2 ^ b} (2 ^ b) (omega arith),
    mul-le-mul_right {m = h + 1} {n = m} (2 ^ b * 2 ^ b) (omega arith),
  )
  | no many ↦ absurd (
      omega (arith, spread b a c h, mul-le-mul_right {m = m} {n = h} (2 ^ b * 2 ^ b) (omega arith)))
]

-- What the exchange comes to on the first `2 ^ k` indices.
abbrev pub Remapped : ℕ → ℕ → ℕ → Type 0
Remapped b n i =
    (remap_index b i < n)
    × (remap_index b (remap_index b i) ≡ i)
    × (remap_index b i / 2 ^ b % 2 ^ b ≡ i % 2 ^ b)

groups_Remapped :
    (b a c h m : ℕ)
    → a < 2 ^ b
    → c < 2 ^ b
    → b * 2 ≤ 32
    → a + (c + h * 2 ^ b) * 2 ^ b < m * (2 ^ b * 2 ^ b)
    → Remapped b (m * (2 ^ b * 2 ^ b)) (a + (c + h * 2 ^ b) * 2 ^ b)
groups_Remapped b a c h m low next small less = rw (swapped b a c h low next small) (
  below_lem b a c h m low next less,
  swapped b c a h next low small,
  ap (λ q. q % 2 ^ b) (shifted_down b c a h next low)
      ∙ (add-mul-mod_self_right a h (2 ^ b)
          ∙ sym (add-mul-mod_self_right a (c + h * 2 ^ b) (2 ^ b))),
)

pub bits_Remapped : (b k i : ℕ) → b * 2 ≤ k → b * 2 ≤ 32 → i < 2 ^ k → Remapped b (2 ^ k) i
bits_Remapped b k i wide small less =
    subst (λ n. Remapped b n i) (sym whole)
      (subst (Remapped b (2 ^ (k - b * 2) * (2 ^ b * 2 ^ b))) (sym (index_groups b i)) (
        groups_Remapped b (i % 2 ^ b) (i / 2 ^ b % 2 ^ b) (i / 2 ^ b / 2 ^ b) (2 ^ (k - b * 2))
          (mod-lt i (omega (arith, one-le-pow b 2)))
          (mod-lt (i / 2 ^ b) (omega (arith, one-le-pow b 2))) small
          (omega (arith, sym (index_groups b i), whole))))
  where
    whole : 2 ^ k ≡ 2 ^ (k - b * 2) * (2 ^ b * 2 ^ b)
    whole =
        ap (λ e. 2 ^ e) {y = k - b * 2 + b * 2} (omega arith)
        ∙ (pow_add (k - b * 2) (b * 2) ∙ ap (λ x. 2 ^ (k - b * 2) * x) (square b))

pub zero_Remapped : (n i : ℕ) → i < n → Remapped 0 n i
unfolding remap_index
zero_Remapped n i less = (less, refl, omega arith)
