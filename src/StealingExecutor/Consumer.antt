-- ===== src/StealingExecutor/Consumer.antt =====
-- The consumer threads of StealingExecutor.h: where a thread stands in `Consumer` and `Callback_Execute`.
use godby.Prelude.{ℕ, ◌-◌, Bool, not, ◌&&◌, ◌||◌, bit_and, leb, ◌==◌, if◌then◌else◌}
use godby.Math.{next_power_of_two}

-- `StealingConfig`, and what `Callback_IsLimited` answers for a thread and a number of items.
pub record Config : Type 0 where
  pub max_steal_size : ℕ
  pub pause_check_gap : ℕ
  pub is_limited : ℕ → ℕ → Bool

abbrev pub pause_check_mask : Config → ℕ
pause_check_mask c = next_power_of_two c.pause_check_gap - 1

-- A value, and whether it comes with a waiter.
pub record Item (A : Type 0) : Type 0 where
  pub value : A
  pub awaited : Bool

-- `nth` is the number of items that the thread has taken since it woke up.
pub data Worker (A : Type 0) : Type 0 where
  absent : Worker A
  starting : Worker A  -- before `M_initialized_size.fetch_add`
  entering : Worker A  -- before `M_waiting_size.fetch_add`
  testing : Worker A  -- in the loop that waits for work
  waking : Worker A  -- before `M_waiting_size.fetch_sub`
  looking : Worker A  -- before the load of `M_shutdown`
  stealing : (nth : ℕ) → Worker A  -- before `M_queue.steal`
  stolen : (x : Item A) → Worker A  -- before `M_working_size.fetch_add`
  deciding : (nth : ℕ) (x : Item A) → Worker A  -- before the load of `M_cancelled`
  consuming : (nth : ℕ) (x : Item A) → Worker A  -- in `Callback_Consume`
  cleaning : (nth : ℕ) (x : Item A) → Worker A  -- in `Callback_Cleanup`
  signalling : (nth : ℕ) (checks : Bool) → Worker A  -- before the decrement of `WaitGroup::done`
  limiting : (nth : ℕ) → Worker A  -- before the tests that may end the loop
  leaving : Worker A  -- before `M_working_size.fetch_sub`
  suspending : Worker A  -- before `M_queue.empty`
  counting : Worker A  -- before the load of `M_working_size`
  notifying : Worker A  -- in the loop that notifies the owner
  tearing : Worker A  -- before `M_initialized_size.fetch_sub`
  gone : Worker A

module _ {A : Type 0} where
  -- Only items after the first one are followed by the tests.
  abbrev pub go_on : ℕ → Bool → Worker A
  go_on nth checks = if checks then limiting nth else stealing nth

  abbrev pub after_item : ℕ → Bool → Bool → Worker A
  after_item nth checks awaited = if awaited then signalling nth checks else go_on nth checks

-- The three tests that end the loop of `Callback_Execute`.
unfoldable pub must_break : Config → Bool → ℕ → ℕ → Bool
must_break c pause cid nth =
    (not (c.max_steal_size == 0) && leb c.max_steal_size nth)
    || ((bit_and nth (pause_check_mask c) == 0) && pause)
    || c.is_limited cid nth
