-- ===== src/StealingQueue/Threads.antt =====
-- StealingQueue.h under interleaving: one owner and any number of thieves, one access to a location
-- that another thread writes at a time. Atomic operations are sequentially consistent here; the
-- orders and fences that the source gives them are not modelled.
pub mod Invariant
pub mod Moved
pub mod Pop
pub mod Push
pub mod Steal
pub mod Safety
pub mod Alone
mod Tests
use godby.Prelude.{
  ℕ, ◌+◌, ◌-◌, ◌^◌, ◌<◌, ◌≡◌, Bool, true, false, Option, none, some, List, [], ◌∷◌, ◌++◌, length,
  get_or, ltb, leb, ◌==◌, if◌then◌else◌, update,
}
use godby.StealingQueue.{StealingQueue, is_full, grow, cas_top}
use godby.StealingQueue.Slots.{Array, word, add_size, sub_size, slot_load, slot_store}

-- Where the owner stands, with the arguments and locals that are live there.
pub data Owner (A : Type 0) : Type 0 where
  idle : Owner A
  pushing : (x : A) (t : ℕ) → Owner A  -- `push`, the top loaded
  placing : (x : A) → Owner A  -- after the test for a full array
  publishing : (x : A) → Owner A  -- before `M_bottom.store(b + 1)`
  popping : (b : ℕ) → Owner A  -- `pop`, before it loads the top
  racing : (b : ℕ) (x : A) → Owner A  -- before the compare-exchange for the last item
  restoring : (b : ℕ) (r : Option A) → Owner A  -- before `M_bottom.store(b + 1)` of `pop`

-- Where a thief stands in `steal`.
pub data Thief (A : Type 0) : Type 0 where
  idle : Thief A
  got_top : (t : ℕ) → Thief A
  got_bottom : (t : ℕ) → Thief A  -- `t < b` was seen
  reading : (t : ℕ) (g : ℕ) → Thief A  -- with the pointer to the array of age `g`
  racing : (t : ℕ) (x : A) → Thief A  -- before the compare-exchange

module _ {A : Type 0} where
  -- Arrays are told apart by their age: the number of arrays that came before.
  abbrev pub age : StealingQueue A → ℕ
  age q = length q.garbage

  abbrev pub array_of_age : StealingQueue A → ℕ → Array A
  array_of_age q g = get_or (q.array ∷ q.garbage) (age q - g) q.array

-- What one step does: the memory after it, where the thread then stands, what the step has pushed,
-- and what the call returns.
pub record Outcome (A P : Type 0) : Type 0 where
  pub memory : StealingQueue A
  pub next : P
  pub pushed : List A
  pub returned : List A

module _ {A : Type 0} where
  abbrev pub silent : {P : Type 0} → StealingQueue A → P → Outcome A P
  silent q p = record { memory = q; next = p; pushed = []; returned = [] }

  abbrev pub answer : {P : Type 0} → StealingQueue A → P → Option A → Outcome A P
  answer q p none = silent q p
  answer q p (some x) = record { memory = q; next = p; pushed = []; returned = x ∷ [] }

module _ {A : Type 0} (d : A) where
  -- The owner's next step in a call of `push` or `pop` that is under way.
  pub owner_step : StealingQueue A → Owner A → Outcome A (Owner A)
  owner_step q Owner.idle = silent q Owner.idle
  owner_step q (pushing x t) =
      silent (if is_full d q q.bottom t then grow d q q.bottom t else q) (placing x)
  owner_step q (placing x) =
      silent (record q { array = slot_store d q.array q.bottom x }) (publishing x)
  owner_step q (publishing x) = record {
    memory = record q { bottom = add_size q.bottom 1 };
    next = Owner.idle;
    pushed = x ∷ [];
    returned = [];
  }
  owner_step q (popping b) =
      let t = q.top in
      let x = slot_load d q.array b in
      if leb t b
      then (if t == b then silent q (Owner.racing b x) else answer q Owner.idle (some x))
      else silent q (restoring b none)
  owner_step q (Owner.racing b x) =
      let (won, q') = cas_top d q b in silent q' (restoring b (if won then some x else none))
  owner_step q (restoring b r) = answer (record q { bottom = add_size b 1 }) Owner.idle r

  -- A thief's next step.
  pub thief_step : StealingQueue A → Thief A → Outcome A (Thief A)
  thief_step q Thief.idle = silent q (got_top q.top)
  thief_step q (got_top t) =
      if ltb t q.bottom then silent q (got_bottom t) else answer q Thief.idle none
  thief_step q (got_bottom t) = silent q (reading t (age q))
  thief_step q (reading t g) = silent q (Thief.racing t (slot_load d (array_of_age q g) t))
  thief_step q (Thief.racing t x) =
      let (won, q') = cas_top d q t in answer q' Thief.idle (if won then some x else none)

-- The queue, its threads, and the items pushed and returned so far, the latest first.
pub record System (A : Type 0) : Type 0 where
  pub queue : StealingQueue A
  pub owner : Owner A
  pub thief : ℕ → Thief A
  pub pushed : List A
  pub returned : List A

module _ {A : Type 0} where
  abbrev pub after_owner : System A → Outcome A (Owner A) → System A
  after_owner s o = record s {
    queue = o.memory;
    owner = o.next;
    pushed = o.pushed ++ s.pushed;
    returned = o.returned ++ s.returned;
  }

  abbrev pub after_thief : System A → ℕ → Outcome A (Thief A) → System A
  after_thief s i o = record s {
    queue = o.memory;
    thief = update s.thief i o.next;
    pushed = o.pushed ++ s.pushed;
    returned = o.returned ++ s.returned;
  }

-- The owner starts a call or goes on with one, or thief `i` makes a step. The owner is taken to pop
-- only after it has pushed at least once (`Create.pop-create` shows what happens otherwise), and to
-- push only while the indices stay below 2 ^ 63.
pub data Step {A : Type 0} (d : A) (s : System A) : System A → Type 0 where
  start_push :
      (x : A)
      → s.owner ≡ Owner.idle
      → s.queue.bottom < 2 ^ 63 - 1
      → Step d s (record s { owner = pushing x s.queue.top })
  start_pop :
      s.owner ≡ Owner.idle
      → 0 < s.queue.bottom
      → Step d s (record s {
        queue = record s.queue { bottom = sub_size s.queue.bottom 1 };
        owner = popping (sub_size s.queue.bottom 1);
      })
  owner : Step d s (after_owner s (owner_step d s.queue s.owner))
  thief : (i : ℕ) → Step d s (after_thief s i (thief_step d s.queue (s.thief i)))

pub data Reach {A : Type 0} (d : A) (s : System A) : System A → Type 0 where
  here : Reach d s s
  next : {t u : System A} → Reach d s t → Step d t u → Reach d s u
