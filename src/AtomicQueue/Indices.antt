-- ===== src/AtomicQueue/Indices.antt =====
-- The head and the tail of AtomicQueue.h: 32-bit counters, whose difference the tests read as a signed
-- number. `size` is the number of elements.
use godby.Prelude.{
  ℕ, ◌+◌, ◌-◌, ◌%◌, ◌^◌, ◌≤◌, ◌<◌, ◌≡◌, ◌↔◌, ◌⊎◌, ap₂, Bool, true, arith, ltb, leb, ◌==◌,
  if◌then◌else◌, Option, none, some,
}

abbrev pub unsigned : ℕ
unsigned = 2 ^ 32

-- `a - b` in 32 bits, and the least number whose `static_cast<int>` is negative.
abbrev pub difference : ℕ → ℕ → ℕ
difference a b = (a + unsigned - b) % unsigned

abbrev pub sign : ℕ
sign = 2 ^ 31

-- `static_cast<int>(a) <= static_cast<int>(b)`, in two's complement.
abbrev pub int_le : ℕ → ℕ → Bool
int_le a b = leb ((a + sign) % unsigned) ((b + sign) % unsigned)

pub record Indices : Type 0 where
  pub head : ℕ
  pub tail : ℕ

-- `static_cast<int>(head - tail) >= static_cast<int>(size)`
unfoldable pub no_room : ℕ → Indices → Bool
no_room size i = int_le size (difference i.head i.tail)

-- `static_cast<int>(head - tail) <= 0`
unfoldable pub no_item : Indices → Bool
no_item i = int_le (difference i.head i.tail) 0

unfoldable pub was_size : Indices → ℕ
was_size i = let d = difference i.head i.tail in if ltb d sign then d else 0

unfoldable pub was_empty : Indices → Bool
was_empty i = was_size i == 0

unfoldable pub was_full : ℕ → Indices → Bool
was_full size i = leb size (was_size i)

-- What `try_push` and `try_pop`, run alone, do to the indices before they use the element at the index
-- returned; `none`: they return false. `push` and `pop` do not test.
unfoldable pub try_push : ℕ → Indices → Option ℕ × Indices
try_push size i =
    if no_room size i then (none, i) else (some i.head, record i { head = (i.head + 1) % unsigned })

unfoldable pub try_pop : Indices → Option ℕ × Indices
try_pop i =
    if no_item i then (none, i) else (some i.tail, record i { tail = (i.tail + 1) % unsigned })

unfoldable pub push : Indices → ℕ × Indices
push i = (i.head, record i { head = (i.head + 1) % unsigned })

unfoldable pub pop : Indices → ℕ × Indices
pop i = (i.tail, record i { tail = (i.tail + 1) % unsigned })

-- The indices of a queue that `pushes` pushes and `pops` pops have been begun on.
abbrev pub after : ℕ → ℕ → Indices
after pushes pops = record { head = pushes % unsigned; tail = pops % unsigned }

-- The difference of the counters, as a signed number, where fewer than 2 ^ 31 lie between them.
difference_lem :
    (p q : ℕ)
    → p < q + sign
    → q < p + sign
    → ((q ≤ p) × (difference (p % unsigned) (q % unsigned) ≡ p - q))
      ⊎ ((p < q) × (sign ≤ difference (p % unsigned) (q % unsigned)))
difference_lem p q near near' = omega arith

module _ (p q : ℕ) (near : p < q + sign) (near' : q < p + sign) where
  -- `was_size` is the number of pushes that are ahead of the pops, or 0.
  was_size_lem :
      (size : ℕ)
      → (was_size (after p q) ≡ p - q)
        × ((was_empty (after p q) ≡ true) ↔ (p ≤ q))
        × ((was_full size (after p q) ≡ true) ↔ (size ≤ p - q))
  unfolding was_size was_empty was_full
  was_size_lem size = (same, empty_iff, full_iff)
    where
      same : was_size (after p q) ≡ p - q
      same = ground (arith, difference_lem p q near near')

      empty_iff : ((was_size (after p q) == 0) ≡ true) ↔ (p ≤ q)
      empty_iff = ground (arith, same)

      full_iff : (leb size (was_size (after p q)) ≡ true) ↔ (size ≤ p - q)
      full_iff = ground (arith, same)

  no_room_lem : (size : ℕ) → 0 < size → size < sign → no_room size (after p q) ≡ leb size (p - q)
  unfolding no_room
  no_room_lem size pos small = ground (arith, difference_lem p q near near', difference_small)
    where
      difference_small : difference (p % unsigned) (q % unsigned) < unsigned
      difference_small = omega arith

  no_item_lem : no_item (after p q) ≡ leb p q
  unfolding no_item
  no_item_lem = ground (arith, difference_lem p q near near', difference_small)
    where
      difference_small : difference (p % unsigned) (q % unsigned) < unsigned
      difference_small = omega arith

  -- While fewer than 2 ^ 31 pushes or pops are ahead, however often the counters have wrapped around,
  -- and for 1 to 2 ^ 31 - 1 elements: `try_push` fails exactly when as many pushes as elements are ahead
  -- of the pops, and `try_pop` exactly when none is; otherwise each takes the next index of its side and
  -- counts it; `was_size` is the number of pushes that are ahead of the pops, and 0 when the pops are
  -- ahead; `was_empty` and `was_full` say whether it is 0 and whether it is the number of elements or more.
  pub try_lem :
      (size : ℕ)
      → 0 < size
      → size < sign
      → (try_push size (after p q) ≡ (
          if leb size (p - q) then (none, after p q) else (some (p % unsigned), after (p + 1) q)))
        × (try_pop (after p q)
            ≡ (if leb p q then (none, after p q) else (some (q % unsigned), after p (q + 1))))
        × (was_size (after p q) ≡ p - q)
        × ((was_empty (after p q) ≡ true) ↔ (p ≤ q))
        × ((was_full size (after p q) ≡ true) ↔ (size ≤ p - q))
  unfolding try_push try_pop
  try_lem size pos small = (
    ap₂
        (λ b h.
          if b
          then (none, after p q)
          else (some (p % unsigned), record { head = h; tail = q % unsigned }))
        (no_room_lem size pos small) (wrap p),
    ap₂
        (λ b h.
          if b
          then (none, after p q)
          else (some (q % unsigned), record { head = p % unsigned; tail = h }))
        no_item_lem (wrap q),
    (was_size_lem size).0,
    (was_size_lem size).1,
    (was_size_lem size).2,
  )
    where
      wrap : (n : ℕ) → (n % unsigned + 1) % unsigned ≡ (n + 1) % unsigned
      wrap n = omega arith
