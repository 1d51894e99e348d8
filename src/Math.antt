-- ===== src/Math.antt =====
-- godby/include/godby/Math.h and godby/src/godby/mathematics/Prime.cc: the highest bit, the next power
-- of two and prime numbers. `unsigned` has 32 bits, `size_t` and `uint64_t` have 64.
pub mod Bit
pub mod Trial
pub mod Primality
pub mod Next
pub mod Power
pub mod Truncated
mod Tests
use godby.Prelude.{
  ℕ, zero, suc, ◌+◌, ◌-◌, ◌*◌, ◌/◌, ◌%◌, ◌^◌, bit_and, Bool, true, false, not, ◌&&◌, ◌||◌, Option,
  none, some, List, [], ◌∷◌, ltb, leb, ◌==◌, if◌then◌else◌,
}

abbrev pub word : ℕ
word = 2 ^ 64

abbrev pub unsigned : ℕ
unsigned = 2 ^ 32

abbrev pub mul : ℕ → ℕ → ℕ
mul a b = a * b % word

-- The recursion of `MSB`, for a number of at most `n` bits.
unfoldable pub msb_bits : ℕ → ℕ → ℕ
msb_bits zero x = 0
msb_bits (suc n) x = let rest = msb_bits n (x / 2) in if ltb 1 x then 1 + rest else 0

unfoldable pub msb : ℕ → ℕ
msb x = msb_bits 64 x

-- `__builtin_clzll`, for a number above 0.
abbrev pub clz : ℕ → ℕ
clz x = 63 - msb x

-- `std::bit_ceil`: the first power of two from `p` on that is at least `x`, of the next `n`.
unfoldable pub double_until : ℕ → ℕ → ℕ → ℕ
double_until zero p x = p
double_until (suc n) p x = let rest = double_until n (p * 2) x in if leb x p then p else rest

-- `NextPowerOfTwo` in C++20, and with `__builtin_clzll`.
unfoldable pub next_power_of_two : ℕ → ℕ
next_power_of_two x = double_until 63 1 x

unfoldable pub next_power_of_two_clz : ℕ → ℕ
next_power_of_two_clz x = if (x == 0) || (x == 1) then 1 else 2 ^ (64 - clz (x - 1)) % word

-- The loop of `IsPrime_power`, for `n` of at most `bits` bits.
unfoldable pub power_loop : ℕ → ℕ → ℕ → ℕ → ℕ → ℕ
power_loop zero n power result modulus = result
power_loop (suc bits) n power result modulus =
    if n == 0
    then result
    else power_loop bits (n / 2) (mul power power % modulus)
        (if bit_and n 1 == 1 then mul result power % modulus else result) modulus

unfoldable pub is_prime_power : ℕ → ℕ → ℕ → ℕ
is_prime_power a n modulus = power_loop 32 n a 1 modulus

-- The first loop of `IsPrime_witness`; `none`: 32 halvings have not come to an odd number.
unfoldable pub halve : ℕ → ℕ → ℕ → Option (ℕ × ℕ)
halve zero u t = none
halve (suc n) u t = if bit_and u 1 == 0 then halve n (u / 2) (t + 1) else some (u, t)

-- The second loop, with `rounds` rounds left, and the test after it.
unfoldable pub square_loop : ℕ → ℕ → ℕ → ℕ → Bool
square_loop zero n prev curr = not (curr == 1)
square_loop (suc rounds) n prev curr =
    let square = mul prev prev % n in
    if (square == 1) && not (prev == 1) && not (prev == n - 1)
    then true
    else square_loop rounds n square square

unfoldable pub is_prime_witness : ℕ → ℕ → Option Bool
is_prime_witness a n = elim (halve 32 (n / 2) 1) [
  | none ↦ none
  | some (u, t) ↦ some (square_loop t n (is_prime_power a u n) 0)
]

-- The loop of `IsPrime` over `k`; `none`: `fuel` rounds were too few.
unfoldable pub trial_loop : ℕ → ℕ → ℕ → Option Bool
trial_loop zero k n = none
trial_loop (suc fuel) k n =
    if ltb ((mul (mul 36 k) k + word - mul 12 k) % word) n
    then (if (n % (6 * k + 1) == 0) || (n % (6 * k - 1) == 0)
        then some false
        else trial_loop fuel (k + 1) n)
    else some true

-- The tests of a number by bases, which are given its low 32 bits.
unfoldable pub passes : List ℕ → ℕ → Option Bool
passes [] low = some true
passes (a ∷ bases) low = elim (is_prime_witness a low) [
  | none ↦ none
  | some composite ↦ let rest = passes bases low in if composite then some false else rest
]

unfoldable pub is_prime : ℕ → Option Bool
is_prime n =
    if (bit_and n 1 == 0) && not (n == 2) || ltb n 2 || (n % 3 == 0) && not (n == 3)
    then some false
    else (if ltb n 1373653
        then trial_loop 200 1 n
        else (if ltb n 9080191
            then passes (31 ∷ 73 ∷ []) (n % unsigned)
            else passes (2 ∷ 7 ∷ 61 ∷ []) (n % unsigned)))

-- What a round of `NextPrime` does with the answer of `IsPrime`; `rest`: the rounds after it.
abbrev pub next_round : Option Bool → ℕ → Option ℕ → Option ℕ
next_round none next rest = none
next_round (some true) next rest = some next
next_round (some false) next rest = rest

-- The loop of `NextPrime`; `none`: `fuel` rounds were too few.
unfoldable pub next_loop : ℕ → ℕ → Option ℕ
next_loop zero next = none
next_loop (suc fuel) next = next_round (is_prime next) next (next_loop fuel ((next + 2) % word))

unfoldable pub next_prime : ℕ → ℕ → Option ℕ
next_prime fuel n =
    if leb n 2 then some 2 else next_loop fuel (if bit_and n 1 == 0 then (n + 1) % word else n)
