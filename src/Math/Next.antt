-- ===== src/Math/Next.antt =====
-- `NextPrime`, where there is a prime below 1373653 that it can find.
use godby.Prelude.{
  ℕ, zero, suc, ◌+◌, ◌%◌, ◌≤◌, ◌<◌, ◌≡◌, refl, sym, subst, bit_and, Bool, true, false, Option, some,
  arith, ◌⊎◌, inl, inr, leb, leb→le, leb_false→lt, ◌==◌, if◌then◌else◌, Bool-cases,
}
use godby.Prelude.Bits.{bit_and-one}
use godby.Math.{word, next_round, next_loop, next_prime}
use godby.Math.Primality.{Prime, is_prime_lem}
use native.Mathlib.Nat.{mod-eq_of_lt}

prime_two : Prime 2
prime_two = record { above = omega arith; irreducible = λ d more less. absurd (omega arith) }

odd_prime : (p : ℕ) → Prime p → 2 < p → p % 2 ≡ 1
odd_prime p prime more = omega (arith, prime.irreducible 2 (omega arith) more)

-- The first prime among the odd numbers from `next` on.
record First (next : ℕ) (r : Option ℕ) : Type 0 where
  pub value : ℕ
  pub result : r ≡ some value
  pub prime : Prime value
  pub from : next ≤ value
  pub first : (m : ℕ) → next ≤ m → m < value → m % 2 ≡ 1 → ¬ Prime m

module _ (p : ℕ) (prime : Prime p) (small : p < 1373653) (more : 2 < p) where
  next_loop-First :
      (fuel next : ℕ) → next % 2 ≡ 1 → next ≤ p → p < next + fuel → First next (next_loop fuel next)
  unfolding next_loop
  next_loop-First zero next odd before enough = absurd (omega arith)
  next_loop-First (suc fuel) next odd before enough =
      let (b, e, (yes_prime, no_prime)) = is_prime_lem next (omega arith) in
      subst (λ a. First next (next_round a next (next_loop fuel ((next + 2) % word)))) (sym e)
        (elim (Bool-cases b) [
          | inl h ↦ rw h (found_here (yes_prime h))
          | inr h ↦
              let composite = λ (q : Prime next). true_false b h (no_prime q) in
              rw h (
                subst (λ m. First next (next_loop fuel m))
                  (sym (mod-eq_of_lt (omega (arith, later composite))))
                  (skip composite (
                    next_loop-First fuel (next + 2) (omega arith) (later composite) (omega arith))))
        ])
    where
      true_false : (b : Bool) → b ≡ false → b ≡ true → ⊥
      true_false b h e = cc

      found_here : Prime next → First next (some next)
      found_here q = record {
        value = next;
        result = refl;
        prime = q;
        from = omega arith;
        first = λ m low high. absurd (omega arith);
      }

      later : ¬ Prime next → next + 2 ≤ p
      later composite = elim order [
        | inl same ↦ absurd (composite (subst Prime (sym same) prime))
        | inr le ↦ le
      ]
        where
          order : (next ≡ p) ⊎ (next + 2 ≤ p)
          order = omega (arith, odd_prime p prime more)

      skip : ¬ Prime next → {r : Option ℕ} → First (next + 2) r → First next r
      skip composite f = record {
        value = f.value;
        result = f.result;
        prime = f.prime;
        from = omega (arith, f.from);
        first = λ m low high odd_m. elim (order m low odd_m) [
          | inl same ↦ λ q. composite (subst Prime (sym same) q)
          | inr le ↦ f.first m le high odd_m
        ];
      }
        where
          order : (m : ℕ) → next ≤ m → m % 2 ≡ 1 → (next ≡ m) ⊎ (next + 2 ≤ m)
          order m low odd_m = omega arith

-- `NextPrime` returns the least prime that is at least `n`, where a prime below 1373653 is, and as many
-- rounds as that prime are enough.
pub next_prime_lem :
    (fuel n p : ℕ)
    → Prime p
    → p < 1373653
    → n ≤ p
    → p ≤ fuel
    → (q : ℕ) × (next_prime fuel n ≡ some q)
      × Prime q
      × (n ≤ q)
      × ((m : ℕ) → n ≤ m → m < q → ¬ Prime m)
unfolding next_prime
next_prime_lem fuel n p prime small before enough = elim (Bool-cases (leb n 2)) [
  | inl low ↦
      rw low (2, refl, prime_two, leb→le n 2 low, λ m from less q. absurd (omega (arith, q.above)))
  | inr high ↦
      let more : 2 < n = leb_false→lt n 2 high in
      let (odd, le, reach) = start_odd more in
      let f =
        next_loop-First p prime small (omega arith) fuel start odd
          (omega (arith, odd_prime p prime (omega arith))) (omega arith) in
      rw high (
        f.value,
        f.result,
        f.prime,
        omega (arith, f.from),
        λ m from less. elim (parity m) [
          | inl even ↦ λ q. q.irreducible 2 (omega arith) (omega arith) even
          | inr odd_m ↦ f.first m (omega arith) less odd_m
        ],
      )
]
  where
    start : ℕ
    start = if bit_and n 1 == 0 then (n + 1) % word else n

    start_odd : 2 < n → (start % 2 ≡ 1) × (n ≤ start) × (start ≤ n + 1)
    start_odd more = (ground (arith, bit_and-one n), ground arith, ground arith)

    parity : (m : ℕ) → (m % 2 ≡ 0) ⊎ (m % 2 ≡ 1)
    parity m = omega arith
