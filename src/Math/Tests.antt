-- ===== src/Math/Tests.antt =====
-- The functions on numbers at concrete inputs.
use godby.Prelude.{ℕ, ◌/◌, ◌%◌, ◌≤◌, ◌<◌, ◌≡◌, ◌↔◌, refl, Bool, true, false, none, some, arith}
use godby.Math.{double_until, next_power_of_two, halve, trial_loop, is_prime, next_prime, unsigned}
use godby.Math.Primality.{Prime, is_prime_lem, prime_of}
use godby.Math.Next.{next_prime_lem}
use godby.Math.Truncated.{is_prime_truncated}

next_power_of_two-300 : next_power_of_two 300 ≡ 512
unfolding next_power_of_two double_until
next_power_of_two-300 = refl

is_prime-1369 : is_prime 1369 ≡ some false
unfolding is_prime trial_loop
is_prime-1369 = refl

is_prime_lem_example : (b : Bool) × (is_prime 1369 ≡ some b) × ((b ≡ true) ↔ Prime 1369)
is_prime_lem_example = is_prime_lem 1369 (omega arith)

prime_127 : Prime 127
unfolding is_prime trial_loop
prime_127 = prime_of 127 (omega arith) refl

next_prime_lem_example :
    (q : ℕ) × (next_prime 127 114 ≡ some q)
    × Prime q
    × (114 ≤ q)
    × ((m : ℕ) → 114 ≤ m → m < q → ¬ Prime m)
next_prime_lem_example =
    next_prime_lem 127 114 127 prime_127 (omega arith) (omega arith) (omega arith)

is_prime_truncated_example :
    (4294967297 % unsigned ≡ 1
      → (is_prime 4294967297 ≡ none)
        × ((rounds t : ℕ) → halve rounds (4294967297 % unsigned / 2) t ≡ none))
    × (4294967297 % unsigned ≡ 3 → is_prime 4294967297 ≡ some true)
is_prime_truncated_example = is_prime_truncated 4294967297 (omega arith) refl (omega arith)
