-- ===== src/StealingExecutor/State.antt =====
-- The state of StealingExecutor.h: where its owner stands, and what the threads share.
use godby.Prelude.{ℕ, ◌+◌, ◌-◌, ◌%◌, ◌^◌, Bool, true, false, List, [], ◌∷◌, update}
use godby.StealingExecutor.Consumer.{Item, Worker, absent}

-- Where the owner stands. `seen`: whether `WaitAll` has found the queue to be empty; `ends`: whether `Shutdown` has called it.
pub data Owner (A : Type 0) : Type 0 where
  idle : Owner A
  spawning : (concurrency left : ℕ) → Owner A
  joining_in : (concurrency : ℕ) → Owner A  -- before the load of `M_waiting_size` in `Spawn`
  resuming : Owner A  -- in `Resume`, before `M_pause.store(false)`
  unnotifying : Owner A  -- before `M_should_notify.store(false)`
  closing : Owner A  -- in `Shutdown`, before the load of `M_shutdown`
  starting_wait : (ends : Bool) → Owner A  -- in `WaitAll`, before `M_should_notify.store(true)`
  loading_pause : (ends : Bool) → Owner A
  loading_queue : (ends : Bool) → Owner A
  loading_working : (ends seen : Bool) → Owner A
  confirming : (ends seen : Bool) → Owner A  -- before `M_done_spinlock.store(true)`
  gathering : (ends seen : Bool) → Owner A  -- before the load of `M_waiting_size`
  resetting : (ends seen : Bool) → Owner A  -- before `M_done_spinlock.store(false)`
  waited : (seen : Bool) → Owner A  -- `WaitAll` has returned
  regathering : (seen : Bool) → Owner A  -- in `Shutdown`, before the load of `M_waiting_size`
  shutting : (seen : Bool) → Owner A  -- before `M_shutdown.store(true)`
  draining : (seen : Bool) → Owner A  -- before the load of `M_initialized_size`
  joining : (seen : Bool) → Owner A
  reopening : (seen : Bool) → Owner A  -- before `M_shutdown.store(false)`
  shut : (seen : Bool) → Owner A  -- `Shutdown` has returned
  parallelizing : (left : List A) → Owner A
  awaiting : Owner A  -- in `WaitGroup::wait`
  released : Owner A  -- it has returned
  purging : Owner A

abbrev pub word : ℕ
word = 2 ^ 64

-- The atomics, the consumer threads, the queue from its front, the count of one `WaitGroup`, what has been submitted and
-- what has become of it, and for each thread the number of items that it has consumed since it woke up, which the code
-- does not keep.
pub record Executor (A : Type 0) : Type 0 where
  pub pause : Bool
  pub shutdown : Bool
  pub should_notify : Bool
  pub done_spinlock : Bool
  pub cancelled : Bool
  pub working_size : ℕ
  pub waiting_size : ℕ
  pub initialized_size : ℕ
  pub threads : ℕ
  pub worker : ℕ → Worker A
  pub owner : Owner A
  pub queue : List (Item A)
  pub count : ℕ
  pub submitted : List (Item A)
  pub consumed : List (Item A)
  pub cleaned : List (Item A)
  pub purged : List (Item A)
  pub batch : ℕ → ℕ

abbrev pub inc : ℕ → ℕ
inc n = (n + 1) % word

abbrev pub dec : ℕ → ℕ
dec n = (n + word - 1) % word

module _ {A : Type 0} where
  abbrev pub start : Executor A
  start = record {
    pause = false;
    shutdown = false;
    should_notify = true;
    done_spinlock = false;
    cancelled = false;
    working_size = 0;
    waiting_size = 0;
    initialized_size = 0;
    threads = 0;
    worker = λ t. absent;
    owner = idle;
    queue = [];
    count = 0;
    submitted = [];
    consumed = [];
    cleaned = [];
    purged = [];
    batch = λ t. 0;
  }

  abbrev pub empty : List (Item A) → Bool
  empty [] = true
  empty (x ∷ l) = false

  abbrev pub set_worker : ℕ → Worker A → Executor A → Executor A
  set_worker t w s = record s { worker = update s.worker t w }

  abbrev pub set_owner : Owner A → Executor A → Executor A
  set_owner o s = record s { owner = o }
