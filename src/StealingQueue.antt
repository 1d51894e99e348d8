-- ===== src/StealingQueue.antt =====
-- godby/include/godby/StealingQueue.h: the operations of the owner and of a thief, each run to its
-- end. A `size_t` is a number below 2 ^ 64, and its arithmetic wraps.
pub mod Slots
pub mod Refine
pub mod Create
pub mod Deque
pub mod Threads
mod Tests
use godby.Prelude.{
  ℕ, ◌+◌, ◌-◌, ◌*◌, ◌^◌, bit_and, Bool, true, false, ◌&&◌, Option, none, some, List, [], ◌∷◌, ltb,
  leb, ◌==◌, if◌then◌else◌,
}
use Slots.{Array, word, add_size, sub_size, new_array, slot_load, slot_store, resize}

pub record StealingQueue (A : Type 0) : Type 0 where
  pub top : ℕ
  pub bottom : ℕ
  pub array : Array A
  pub garbage : List (Array A)

module _ {A : Type 0} (d : A) where
  -- The constructor; `none` is the failed assertion that the capacity is a power of two.
  unfoldable pub create : ℕ → Option (StealingQueue A)
  create capacity =
      if ltb 0 capacity && (bit_and capacity (sub_size capacity 1) == 0)
      then some (record { top = 0; bottom = 0; array = new_array d capacity; garbage = [] })
      else none

  unfoldable pub empty : StealingQueue A → Bool
  empty q = leb q.bottom q.top

  unfoldable pub size : StealingQueue A → ℕ
  size q = if leb q.top q.bottom then sub_size q.bottom q.top else 0

  unfoldable pub capacity : StealingQueue A → ℕ
  capacity q = q.array.C

  -- The test "queue is full", at the bottom `b` and the top `t` that `push` has loaded.
  unfoldable pub is_full : StealingQueue A → ℕ → ℕ → Bool
  is_full q b t = ltb (sub_size q.array.C 1) (sub_size b t)

  -- The block under that test: the old array is kept for thieves that still read it.
  unfoldable pub grow : StealingQueue A → ℕ → ℕ → StealingQueue A
  grow q b t = record q { array = resize d q.array b t; garbage = q.array ∷ q.garbage }

  unfoldable pub push : StealingQueue A → A → StealingQueue A
  unfolding grow is_full
  push q x =
      let b = q.bottom in
      let t = q.top in
      let p = if is_full q b t then grow q b t else q in
      record p { array = slot_store d p.array b x; bottom = add_size b 1 }

  -- `M_top.compare_exchange_strong(t, t + 1)`: whether it succeeds, and the queue after it.
  unfoldable pub cas_top : StealingQueue A → ℕ → Bool × StealingQueue A
  cas_top q t = if q.top == t then (true, record q { top = add_size t 1 }) else (false, q)

  -- The branch of `pop` at the last item, which a thief may have taken.
  unfoldable pub pop_last : StealingQueue A → ℕ → ℕ → A → Option A × StealingQueue A
  unfolding cas_top
  pop_last q t b x =
      let (won, q') = cas_top q t in
      (if won then some x else none, record q' { bottom = add_size b 1 })

  unfoldable pub pop : StealingQueue A → Option A × StealingQueue A
  unfolding pop_last
  pop q =
      let b = sub_size q.bottom 1 in
      let q' = record q { bottom = b } in
      let t = q'.top in
      let x = slot_load d q'.array b in
      if leb t b
      then (if t == b then pop_last q' t b x else (some x, q'))
      else (none, record q' { bottom = add_size b 1 })

  unfoldable pub steal : StealingQueue A → Option A × StealingQueue A
  unfolding cas_top
  steal q =
      let t = q.top in
      let b = q.bottom in
      let x = slot_load d q.array t in
      let (won, q') = cas_top q t in
      if ltb t b then (if won then (some x, q') else (none, q')) else (none, q)
