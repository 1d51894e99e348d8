-- ===== src/Barrier.antt =====
-- godby/include/godby/Barrier.h: any number of threads that wait, and one that releases them, one access at
-- a time.
pub mod Gate
mod Tests
use godby.Prelude.{ℕ, ◌+◌, ◌%◌, ◌^◌, ◌<◌, ◌≡◌, Bool, true, false, if◌then◌else◌, update, ◌==◌}

pub data Waiter : Type 0 where
  outside : Waiter
  arriving : Waiter  -- in `wait`, before `counter_.fetch_add`
  waiting : Waiter  -- in the loop of `wait`
  passed : Waiter  -- after it

-- The thread that calls `release`.
pub data Releaser : Type 0 where
  away : Releaser
  counting : (expected : ℕ) → Releaser  -- in the loop
  counted : (expected : ℕ) → Releaser  -- before the store
  done : (expected : ℕ) → Releaser  -- after it

-- `counter_`, the threads, and how many times `fetch_add` has been made.
pub record Barrier : Type 0 where
  pub counter : ℕ
  pub waiter : ℕ → Waiter
  pub releaser : Releaser
  pub arrived : ℕ

abbrev pub start : Barrier
start = record { counter = 0; waiter = λ t. outside; releaser = away; arrived = 0 }

abbrev pub set_waiter : Barrier → ℕ → Waiter → Barrier
set_waiter s t p = record s { waiter = update s.waiter t p }

-- The next access of a thread that waits.
unfoldable pub wait_step : ℕ → Waiter → Barrier → Barrier
wait_step t outside s = s
wait_step t arriving s = record s {
  counter = (s.counter + 1) % 2 ^ 32;
  waiter = update s.waiter t waiting;
  arrived = s.arrived + 1;
}
wait_step t waiting s = if s.counter == 0 then set_waiter s t passed else s
wait_step t passed s = s

-- The next access of the thread that releases.
unfoldable pub release_step : Releaser → Barrier → Barrier
release_step away s = s
release_step (counting expected) s =
    if expected == s.counter then record s { releaser = counted expected } else s
release_step (counted expected) s = record s { counter = 0; releaser = done expected }
release_step (done expected) s = s

-- One round: each thread waits once, and `release` is called once. Fewer than 2 ^ 32 threads arrive.
pub data Step (s : Barrier) : Barrier → Type 0 where
  wait : (t : ℕ) → s.waiter t ≡ outside → Step s (set_waiter s t arriving)
  release : (expected : ℕ) → s.releaser ≡ away → Step s (record s { releaser = counting expected })
  run_wait : (t : ℕ) → s.arrived + 1 < 2 ^ 32 → Step s (wait_step t (s.waiter t) s)
  run_release : Step s (release_step s.releaser s)

pub data Reach : Barrier → Type 0 where
  begin : Reach start
  next : {s s' : Barrier} → Reach s → Step s s' → Reach s'
