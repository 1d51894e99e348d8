-- ===== src/MemoryPool.antt =====
-- samples/contrib/MemoryPool.h: a pool of slots of one size, its calls run alone. An address is a number,
-- and `none` is the null pointer; the `next` fields of the slots are a function of their addresses, and
-- `new` gives the address of a block.
pub mod Layout
pub mod FreeList
pub mod Slots
pub mod Blocks
pub mod Apart
pub mod Safety
pub mod Allocate
mod Tests
use godby.Prelude.{
  ℕ, zero, suc, ◌+◌, ◌-◌, ◌*◌, ◌%◌, ◌^◌, Bool, true, false, ◌&&◌, Option, none, some, List, [], ◌∷◌,
  if◌then◌else◌, ltb, leb, update,
}

-- `slot_head_t`
pub record Head : Type 0 where
  pub aba : ℕ
  pub node : Option ℕ

pub record Pool : Type 0 where
  pub allocate_block_threshold : ℕ
  pub max_size : ℕ
  pub last_slot : Option ℕ
  pub allocated_blocks : List ℕ  -- the buffers, the last one first
  pub free : Head
  pub last_allocate_block_time : ℕ
  pub next : ℕ → Option ℕ

abbrev pub start : ℕ → Pool
start now = record {
  allocate_block_threshold = 0;
  max_size = 0;
  last_slot = none;
  allocated_blocks = [];
  free = record { aba = 0; node = none };
  last_allocate_block_time = now;
  next = λ p. none;
}

abbrev pub set_allocate_block_threshold : ℕ → Pool → Pool
set_allocate_block_threshold thresh s = record s { allocate_block_threshold = thresh % 2 ^ 32 }

-- `sizeof(slot_t *)`, and the ticks of the system clock in a second
abbrev pub pointer_size : ℕ
pointer_size = 8

abbrev pub second : ℕ
second = 1000000000

abbrev pub is_null : Option ℕ → Bool
is_null none = true
is_null (some p) = false

unfoldable pub pad_pointer : ℕ → ℕ → ℕ
pad_pointer p align = (align + 2 ^ 64 - p) % 2 ^ 64 % align

-- `slot->next = p`, where there is a slot.
abbrev pub set_next : Option ℕ → Option ℕ → (ℕ → Option ℕ) → ℕ → Option ℕ
set_next none p next = next
set_next (some slot) p next = update next slot p

-- What the loop that links the slots of a block changes.
pub record Linked : Type 0 where
  pub at : ℕ
  pub next : ℕ → Option ℕ
  pub max_size : ℕ

-- The test of `allocate_block` for a block that comes too soon after the last.
abbrev pub too_soon : ℕ → Pool → Bool
too_soon now s =
    ltb 0 s.max_size && leb now (s.last_allocate_block_time + s.allocate_block_threshold * second)

-- The exchange at the end of `allocate`; alone it succeeds.
unfoldable pub take_slot : Option ℕ → Pool → Option ℕ × Pool
take_slot none s = (none, s)
take_slot (some slot) s =
    (some slot, record s { free = record { aba = (s.free.aba + 1) % 2 ^ 64; node = s.next slot } })

abbrev pub retry : Bool × Pool → Option ℕ × Pool
retry (false, s) = (none, s)
retry (true, s) = take_slot s.free.node s

unfoldable pub deallocate : ℕ → Pool → Pool
deallocate p s = record s {
  next = update s.next p s.free.node;
  free = record { aba = (s.free.aba + 1) % 2 ^ 64; node = some p };
}

module _ (size : ℕ) where
  -- The loop of `allocate_block`, for `fuel` turns; there are `block_size` slots in a block at most.
  unfoldable pub link_slots : ℕ → ℕ → Linked → Linked
  link_slots zero end l = l
  link_slots (suc fuel) end l =
      let rest = link_slots fuel end (record {
        at = l.at + size;
        next = update l.next l.at (some (l.at + size));
        max_size = (l.max_size + 1) % 2 ^ 64;
      }) in
      if ltb (l.at + size) end then rest else l

-- `size` is `sizeof(slot_t)` and `align` is `alignof(slot_t)`.
module _ (block_size size align : ℕ) where
  abbrev pub max_bytes : Pool → ℕ
  max_bytes s = s.max_size * size

  -- Where the first slot of a block is.
  abbrev pub first_slot : ℕ → ℕ
  first_slot buffer = buffer + pointer_size + pad_pointer (buffer + pointer_size) align

  abbrev pub linked : ℕ → Pool → Linked
  linked buffer s = link_slots size block_size (buffer + block_size * size) (record {
    at = first_slot buffer;
    next = set_next s.last_slot (some (first_slot buffer)) s.next;
    max_size = s.max_size;
  })

  -- `allocate_block` from `new` on.
  unfoldable pub add_block : ℕ → ℕ → Pool → Pool
  add_block now buffer s =
      let l = linked buffer s in
      let last = l.at - size in
      record s {
        last_allocate_block_time = now;
        allocated_blocks = buffer ∷ s.allocated_blocks;
        max_size = l.max_size;
        last_slot = some last;
        next = update (update l.next last none) last s.free.node;
        free = record { aba = 0; node = some (first_slot buffer) };
      }

  -- `allocate_block`, where the clock says `now` and then `now'`.
  unfoldable pub allocate_block : ℕ → ℕ → ℕ → Pool → Bool × Pool
  allocate_block now now' buffer s =
      if is_null s.free.node
      then (if too_soon now s then (false, s) else (true, add_block now' buffer s))
      else (true, s)

  -- `allocate`; a block that is allocated has a slot, so that there is one attempt.
  unfoldable pub allocate : ℕ → ℕ → ℕ → Pool → Option ℕ × Pool
  allocate now now' buffer s =
      if is_null s.free.node
      then retry (allocate_block now now' buffer s)
      else take_slot s.free.node s

  -- `new_element` and `delete_element`, with the constructor and the destructor of the element, which
  -- work on what lies in the slots.
  module _ {Memory : Type 0} (construct destroy : ℕ → Memory → Memory) where
    abbrev pub construct_at : Option ℕ × Pool → Memory → Option ℕ × Pool × Memory
    construct_at (none, s) memory = (none, s, memory)
    construct_at (some p, s) memory = (some p, s, construct p memory)

    unfoldable pub new_element : ℕ → ℕ → ℕ → Pool → Memory → Option ℕ × Pool × Memory
    new_element now now' buffer s memory = construct_at (allocate now now' buffer s) memory

    unfoldable pub delete_element : Option ℕ → Pool → Memory → Pool × Memory
    delete_element none s memory = (s, memory)
    delete_element (some p) s memory = (deallocate p s, destroy p memory)
