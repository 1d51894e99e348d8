-- ===== src/MemoryPool/Tests.antt =====
-- MemoryPool: the theorems for slots of 16 bytes, aligned to 8, in blocks of 4 slots.
use godby.Prelude.{
  ℕ, ◌+◌, ◌*◌, ◌%◌, ◌^◌, ◌≤◌, ◌<◌, ◌≡◌, ◌≢◌, subst, sym, ◌⊎◌, inr, refl, true, false, Bool, Option,
  some, none, [], ◌∷◌, arith,
}
use godby.Prelude.Chain.{mem}
use godby.MemoryPool.{
  Pool, start, first_slot, pad_pointer, link_slots, add_block, take_slot, allocate_block, allocate,
  too_soon,
}
use godby.MemoryPool.Layout.{slots}
use godby.Prelude.Linked.{Chain}
use godby.MemoryPool.Slots.{Sizes, Fresh}
use godby.MemoryPool.Safety.{Reach, begin, allocates, handed, held_apart}
use godby.MemoryPool.Allocate.{allocate_lem, add_block_lem}

sizes : Sizes 4 16 8
sizes = record {
  room = omega arith;
  wide = omega arith;
  aligned = refl;
  positive = omega arith;
  small = omega arith;
  bounded = omega arith;
  whole = refl;
}

fresh : Fresh 4 16 8 [] 1001
fresh = record { apart = λ b h. absurd (contrary h); below = omega arith }
  where
    contrary : false ≡ true → ⊥
    contrary h = cc

add_block_lem_example :
    (n : ℕ) × (0 < n)
    × (first_slot 4 16 8 1001 + n * 16 < 1001 + 4 * 16)
    × (1001 + 4 * 16 ≤ first_slot 4 16 8 1001 + n * 16 + 16)
    × ((add_block 4 16 8 7 1001 (start 0)).max_size ≡ (0 + n) % 2 ^ 64)
    × Chain
        (add_block 4 16 8 7 1001 (start 0)).next
        (add_block 4 16 8 7 1001 (start 0)).free.node
        (slots 16 (first_slot 4 16 8 1001) n)
add_block_lem_example = add_block_lem 4 16 8 sizes (begin 0) 7 1001 fresh refl

-- The first call allocates a block, the second finds a slot in it.
abbrev one : Option ℕ × Pool
one = allocate 4 16 8 5 6 1001 (start 0)

abbrev two : Option ℕ × Pool
two = allocate 4 16 8 5 6 3000 one.1

one_blocks : one.1.allocated_blocks ≡ 1001 ∷ []
unfolding allocate allocate_block add_block take_slot pad_pointer link_slots
one_blocks = refl

fresh_again : Fresh 4 16 8 one.1.allocated_blocks 3000
fresh_again = subst (λ blocks. Fresh 4 16 8 blocks 3000) (sym one_blocks) apart_of_one
  where
    apart_of_one : Fresh 4 16 8 (1001 ∷ []) 3000
    apart_of_one = record { apart = λ b h. inr (first b h); below = omega arith }
      where
        first : (b : ℕ) → mem b (1001 ∷ []) ≡ true → b + 4 * 16 ≤ 3000
        first b h = ground arith

abbrev client : ℕ → Bool
client = handed two.0 (handed one.0 (λ p. false))

reached : Reach 4 16 8 two.1 client
reached = allocates 5 6 3000 (allocates 5 6 1001 (begin 0) fresh) fresh_again

client_has : (client 1016 ≡ true) × (client 1032 ≡ true)
unfolding allocate allocate_block add_block take_slot pad_pointer link_slots
client_has = (refl, refl)

held_apart_example :
    ((1016 + 16 ≤ 1032) ⊎ (1032 + 16 ≤ 1016))
    × (1016 % 8 ≡ 0)
    × ((b : ℕ) × (mem b two.1.allocated_blocks ≡ true) × (b < 1016) × (1016 + 16 ≤ b + 4 * 16))
held_apart_example =
    held_apart 4 16 8 sizes reached 1016 1032 client_has.0 client_has.1 (λ e. omega (arith, e))

allocate_lem_example :
    ((one.1.free.node ≡ none)
      × (too_soon 5 one.1 ≡ true)
      × (allocate 4 16 8 5 6 3000 one.1 ≡ (none, one.1)))
    ⊎ (((one.1.free.node ≢ none) ⊎ (too_soon 5 one.1 ≡ false))
        × ((p : ℕ) × ((allocate 4 16 8 5 6 3000 one.1).0 ≡ some p)
            × (handed one.0 (λ p. false) p ≡ false)))
allocate_lem_example =
    allocate_lem 4 16 8 sizes (allocates 5 6 1001 (begin 0) fresh) 5 6 3000 fresh_again
