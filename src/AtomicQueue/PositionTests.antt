-- ===== src/AtomicQueue/PositionTests.antt =====
-- A queue of 1000 elements, 16 in a cache line, and its element for the head 77.
use godby.Prelude.{ℕ, ◌/◌, ◌%◌, ◌<◌, ◌≡◌, refl, true, arith}
use godby.AtomicQueue.Remap.{remap_index}
use godby.AtomicQueue.Position.{
  cache_line_index_bits, index_shuffle_bits, fixed, dynamic, size_of, shuffle_bits, position,
  position_lem,
}
use godby.Math.{msb, msb_bits, double_until, next_power_of_two}

abbrev lines : ℕ
lines = 16

size_of_1000 : size_of (fixed true) lines 1000 ≡ 1024
unfolding size_of next_power_of_two double_until
size_of_1000 = refl

size_of_few : size_of dynamic lines 3 ≡ 256
unfolding size_of cache_line_index_bits msb msb_bits next_power_of_two double_until
size_of_few = refl

position_77 : position (fixed true) lines 1000 77 ≡ 212
unfolding position shuffle_bits size_of index_shuffle_bits cache_line_index_bits msb msb_bits
    next_power_of_two double_until remap_index
position_77 = refl

position_lem_example :
    (position (fixed true) lines 1000 77 < 1024)
    × (remap_index 4 (position (fixed true) lines 1000 77) ≡ 77)
    × (position (fixed true) lines 1000 77 / 16 % 16 ≡ 13)
unfolding shuffle_bits size_of index_shuffle_bits cache_line_index_bits msb msb_bits
    next_power_of_two double_until
position_lem_example =
    position_lem (fixed true) 1000 lines 77 (omega arith) (omega arith) (omega arith) (omega arith)
