-- ===== src/AtomicQueue/Position.antt =====
-- The element that a head or a tail takes in AtomicQueue.h: `size_`, `GetIndexShuffleBits` and `map`, in the
-- four queues.
use native.Mathlib.Nat.{mod-lt, one-le-pow, pow-suc, pow-le-pow_right}
use Prim.Native.Nat.{max}
use godby.Prelude.{
  ℕ, suc, ◌-◌, ◌*◌, ◌/◌, ◌%◌, ◌^◌, ◌≤◌, ◌<◌, ◌≡◌, refl, sym, subst, ◌⊎◌, bit_and, Bool, true, false,
  ltb, if◌then◌else◌, arith, inl, inr, Bool-cases, dec_lt,
}
use godby.Prelude.Bits.{bit_and-mask}
use godby.Math.{msb, next_power_of_two}
use godby.Math.Bit.{msb_lem, next_power_of_two_lem}
use godby.AtomicQueue.Indices.{unsigned}
use godby.AtomicQueue.Remap.{remap_index, Remapped, zero_Remapped, bits_Remapped}

unfoldable pub cache_line_index_bits : ℕ → ℕ
cache_line_index_bits elements_per_cache_line = msb elements_per_cache_line

-- `min_size` is shifted in 32 bits.
unfoldable pub index_shuffle_bits : Bool → ℕ → ℕ → ℕ
index_shuffle_bits false array_size elements_per_cache_line = 0
index_shuffle_bits true array_size elements_per_cache_line =
    let bits = cache_line_index_bits elements_per_cache_line in
    let min_size = 2 ^ (bits * 2) % unsigned in if ltb array_size min_size then 0 else bits

-- `size_` of AtomicQueue and AtomicQueue2, and of AtomicQueueB and AtomicQueueB2.
abbrev pub fixed_size : Bool → ℕ → ℕ
fixed_size minimize_contention size = if minimize_contention then next_power_of_two size else size

abbrev pub dynamic_size : ℕ → ℕ → ℕ
dynamic_size shuffle size = max (next_power_of_two size) (2 ^ (shuffle * 2) % unsigned)

-- The element that `do_push` takes for a head, and `do_pop` for a tail.
abbrev pub fixed_position : ℕ → ℕ → ℕ → ℕ
fixed_position shuffle size count = remap_index shuffle (count % size)

abbrev pub dynamic_position : ℕ → ℕ → ℕ → ℕ
dynamic_position shuffle size count = remap_index shuffle (bit_and count (size - 1))

-- The queues whose size is a template argument, with MINIMIZE_CONTENTION or without, and the queues
-- whose size is an argument of the constructor.
pub data Variant : Type 0 where
  fixed : Bool → Variant
  dynamic : Variant

-- `size_`, for the number of elements asked for.
unfoldable pub size_of : Variant → ℕ → ℕ → ℕ
size_of (fixed minimize_contention) elements_per_cache_line size =
    fixed_size minimize_contention size
size_of dynamic elements_per_cache_line size =
    dynamic_size (cache_line_index_bits elements_per_cache_line) size

-- `SHUFFLE_BITS`.
unfoldable pub shuffle_bits : Variant → ℕ → ℕ → ℕ
shuffle_bits (fixed minimize_contention) elements_per_cache_line size =
    index_shuffle_bits minimize_contention (fixed_size minimize_contention size)
      elements_per_cache_line
shuffle_bits dynamic elements_per_cache_line size = cache_line_index_bits elements_per_cache_line

unfoldable pub position : Variant → ℕ → ℕ → ℕ → ℕ
position (fixed minimize_contention) elements_per_cache_line size count =
    fixed_position (shuffle_bits (fixed minimize_contention) elements_per_cache_line size)
      (fixed_size minimize_contention size) count
position dynamic elements_per_cache_line size count =
    dynamic_position (shuffle_bits dynamic elements_per_cache_line size)
      (size_of dynamic elements_per_cache_line size) count

powers : (i j : ℕ) → i ≤ j → 2 ^ i ≤ 2 ^ j
powers i j h = pow-le-pow_right {n = 2} (omega arith) h

-- A cache line has fewer than 2 ^ 16 elements, and `min_size` does not wrap around.
module _ (p : ℕ) (pos : 0 < p) (few : p < 2 ^ 16) where
  msb_below : msb p < 16
  msb_below = elim (dec_lt (msb p) 16) [
    | yes h ↦ h
    | no h ↦
        absurd (omega (arith, (msb_lem p pos (omega arith)).0, powers 16 (msb p) (omega arith)))
  ]

  min_size_lem : 2 ^ (msb p * 2) % unsigned ≡ 2 ^ (msb p * 2)
  min_size_lem = omega (arith, powers (msb p * 2) 30 (omega (arith, msb_below)))

  -- The number of bits is 0, or there are enough elements for it.
  index_shuffle_bits_lem :
      (k : ℕ)
      → (index_shuffle_bits true (2 ^ k) p ≡ 0)
        ⊎ ((index_shuffle_bits true (2 ^ k) p ≡ msb p) × (msb p * 2 ≤ k))
  unfolding index_shuffle_bits cache_line_index_bits
  index_shuffle_bits_lem k = elim (Bool-cases (ltb (2 ^ k) (2 ^ (msb p * 2) % unsigned))) [
    | inl tight ↦ rw tight (inl refl)
    | inr roomy ↦ rw roomy (inr (refl, wide roomy))
  ]
    where
      wide : ltb (2 ^ k) (2 ^ (msb p * 2) % unsigned) ≡ false → msb p * 2 ≤ k
      wide roomy = elim (dec_lt k (msb p * 2)) [
        | no h ↦ omega arith
        | yes h ↦ absurd (
            ground (arith, min_size_lem, powers (suc k) (msb p * 2) h, pow-suc 2 k, one-le-pow k 2))
      ]

  -- The greater of two powers of two is one.
  size_of-dynamic :
      (size : ℕ) → size ≤ 2 ^ 31 → (k : ℕ) × (size_of dynamic p size ≡ 2 ^ k) × (msb p * 2 ≤ k)
  unfolding size_of cache_line_index_bits
  size_of-dynamic size fits =
      let (j, e, rest, needed, same) = next_power_of_two_lem size (omega arith) in
      elim (dec_lt (msb p * 2) j) [
        | yes h ↦
            (j, omega (arith, e, min_size_lem, powers (msb p * 2) j (omega arith)), omega arith)
        | no h ↦ (
          msb p * 2,
          omega (arith, e, min_size_lem, powers j (msb p * 2) (omega arith)),
          omega arith,
        )
      ]

-- What `position` takes, where the size is a power of two with room for the bits.
masked_Remapped :
    (b k count n : ℕ)
    → n ≡ 2 ^ k
    → b * 2 ≤ k
    → b * 2 ≤ 32
    → (let e = remap_index b (bit_and count (n - 1)) in
        (e < n) × (remap_index b e ≡ count % n) × (e / 2 ^ b % 2 ^ b ≡ count % n % 2 ^ b))
masked_Remapped b k count n is wide small = subst Masks (sym is) (
    rw (bit_and-mask k count)
      (bits_Remapped b k (count % 2 ^ k) wide small (mod-lt count (omega (arith, one-le-pow k 2)))))
  where
    Masks : ℕ → Type 0
    Masks n =
        let e = remap_index b (bit_and count (n - 1)) in
        (e < n) × (remap_index b e ≡ count % n) × (e / 2 ^ b % 2 ^ b ≡ count % n % 2 ^ b)

-- For 1 to 2 ^ 31 elements asked for, 1 to 2 ^ 16 - 1 of them in a cache line, and every head or
-- tail, in the four queues, with MINIMIZE_CONTENTION or without: the element that it takes is one
-- of the queue's; remapping its number again gives the head or tail modulo the size, so that two
-- of them share an element only if they are the same modulo the size; and the line of the element,
-- among as many lines as the shuffled bits tell apart, is the number in the lowest bits of the
-- head or tail modulo the size.
pub position_lem :
    (v : Variant) (size elements_per_cache_line count : ℕ)
    → 0 < size
    → size ≤ 2 ^ 31
    → 0 < elements_per_cache_line
    → elements_per_cache_line < 2 ^ 16
    → (let n = size_of v elements_per_cache_line size in
        let bits = shuffle_bits v elements_per_cache_line size in
        let e = position v elements_per_cache_line size count in
        (e < n)
        × (remap_index bits e ≡ count % n)
        × (e / 2 ^ bits % 2 ^ bits ≡ count % n % 2 ^ bits))
unfolding size_of shuffle_bits position index_shuffle_bits cache_line_index_bits
position_lem (fixed false) size p count some_size fits pos few =
    zero_Remapped size (count % size) (mod-lt count some_size)
position_lem (fixed true) size p count some_size fits pos few =
    let (k, e, enough, needed, same) = next_power_of_two_lem size (omega arith) in
    subst Remaps (sym e) (elim (index_shuffle_bits_lem p pos few k) [
      | inl off ↦
          subst (λ b. Remapped b (2 ^ k) (count % 2 ^ k)) (sym off)
            (zero_Remapped (2 ^ k) (count % 2 ^ k) (inside k))
      | inr (on, wide) ↦
          subst (λ b. Remapped b (2 ^ k) (count % 2 ^ k)) (sym on)
            (bits_Remapped (msb p) k (count % 2 ^ k) wide (omega (arith, msb_below p pos few))
              (inside k))
    ])
  where
    Remaps : ℕ → Type 0
    Remaps n = Remapped (index_shuffle_bits true n p) n (count % n)

    inside : (k : ℕ) → count % 2 ^ k < 2 ^ k
    inside k = mod-lt count (omega (arith, one-le-pow k 2))
position_lem dynamic size p count some_size fits pos few =
    let (k, e, wide) = size_of-dynamic p pos few size fits in
    masked_Remapped (msb p) k count (size_of dynamic p size) e wide
      (omega (arith, msb_below p pos few))
