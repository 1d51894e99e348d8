-- ===== src/StealingExecutor.antt =====
-- godby/include/godby/StealingExecutor.h: the thread that owns an executor and the threads that consume its items, one
-- access of the shared state at a time. The queue is the list of its items (StealingQueue has its calls).
pub mod Consumer
pub mod State
pub mod Totals
pub mod Valid
pub mod Effects
pub mod Workers
pub mod Takes
pub mod Owners
pub mod Waits
pub mod Batch
pub mod Create
mod Tests
use godby.Prelude.{
  ℕ, zero, suc, ◌+◌, ◌-◌, ◌%◌, ◌^◌, ◌<◌, ◌≡◌, Bool, true, false, not, ◌&&◌, List, [], ◌∷◌, ◌++◌,
  update, ◌==◌, if◌then◌else◌,
}
use godby.StealingExecutor.Consumer.{
  Config, Item, Worker, absent, starting, entering, testing, waking, looking, stealing, stolen,
  deciding, consuming, cleaning, signalling, limiting, leaving, suspending, counting, notifying,
  tearing, gone, after_item, go_on, must_break,
}
use godby.StealingExecutor.State.{
  Owner, idle, spawning, joining_in, resuming, unnotifying, closing, starting_wait, loading_pause,
  loading_queue, loading_working, confirming, gathering, resetting, waited, regathering, shutting,
  draining, joining, reopening, shut, parallelizing, awaiting, released, purging, word, Executor,
  inc, dec, start, empty, set_worker, set_owner,
}

module _ {A : Type 0} where
  -- The next access of consumer thread t; a steal is a step of its own. The loads of the last loop are one step.
  unfoldable pub worker_step : Config → ℕ → Worker A → Executor A → Executor A
  worker_step c t absent s = s
  worker_step c t starting s = record s {
    initialized_size = inc s.initialized_size;
    worker = update s.worker t entering;
  }
  worker_step c t entering s = record s {
    waiting_size = inc s.waiting_size;
    worker = update s.worker t testing;
  }
  worker_step c t testing s =
      set_worker t (if empty s.queue && not s.shutdown then testing else waking) s
  worker_step c t waking s = record s {
    waiting_size = dec s.waiting_size;
    worker = update s.worker t looking;
    batch = update s.batch t 0;
  }
  worker_step c t looking s = set_worker t (if s.shutdown then tearing else stealing 0) s
  worker_step c t (stealing nth) s = s
  worker_step c t (stolen x) s = record s {
    working_size = inc s.working_size;
    worker = update s.worker t (deciding 1 x);
  }
  worker_step c t (deciding nth x) s =
      set_worker t (if s.cancelled then cleaning nth x else consuming nth x) s
  worker_step c t (consuming nth x) s = record s {
    consumed = x ∷ s.consumed;
    worker = update s.worker t (after_item nth (not (nth == 1)) x.awaited);
    batch = update s.batch t (s.batch t + 1);
  }
  worker_step c t (cleaning nth x) s = record s {
    cleaned = x ∷ s.cleaned;
    worker = update s.worker t (after_item nth false x.awaited);
  }
  worker_step c t (signalling nth checks) s = record s {
    count = s.count - 1;
    worker = update s.worker t (go_on nth checks);
  }
  worker_step c t (limiting nth) s =
      set_worker t (if must_break c s.pause t nth then leaving else stealing nth) s
  worker_step c t leaving s = record s {
    working_size = dec s.working_size;
    worker = update s.worker t suspending;
  }
  worker_step c t suspending s = set_worker t (if empty s.queue then counting else entering) s
  worker_step c t counting s = set_worker t (if s.working_size == 0 then notifying else entering) s
  worker_step c t notifying s =
      set_worker t
        (if s.should_notify && (not s.done_spinlock && (s.working_size == 0 && empty s.queue))
          then notifying
          else entering)
        s
  worker_step c t tearing s = record s {
    initialized_size = dec s.initialized_size;
    worker = update s.worker t gone;
  }
  worker_step c t gone s = s

  abbrev pub push : Item A → Executor A → Executor A
  push x s = record s { queue = s.queue ++ x ∷ []; submitted = x ∷ s.submitted }

  -- `Submit` with a waiter.
  abbrev pub push_awaited : A → Executor A → Executor A
  push_awaited a s = push (record { value = a; awaited = true }) (record s { count = s.count + 1 })

  -- A new consumer thread.
  abbrev pub emplace : Executor A → Executor A
  emplace s = record s { threads = s.threads + 1; worker = update s.worker s.threads starting }

  abbrev pub spawn_more : ℕ → ℕ → Executor A → Executor A
  spawn_more concurrency zero s = set_owner (joining_in concurrency) s
  spawn_more concurrency (suc left) s = record (emplace s) { owner = spawning concurrency left }

  abbrev pub parallelize : List A → Executor A → Executor A
  parallelize [] s = set_owner awaiting s
  parallelize (a ∷ l) s = record (push_awaited a s) { owner = parallelizing l }

  abbrev pub after_wait : Bool → Bool → Owner A
  after_wait ends seen = if ends then regathering seen else waited seen

  -- The next access of the owner.
  unfoldable pub owner_step : Owner A → Executor A → Executor A
  owner_step idle s = s
  owner_step (spawning concurrency left) s = spawn_more concurrency left s
  owner_step (joining_in concurrency) s =
      set_owner (if s.waiting_size == concurrency then resuming else joining_in concurrency) s
  owner_step resuming s = record s { pause = false; owner = unnotifying }
  owner_step unnotifying s = record s { should_notify = false; owner = idle }
  owner_step closing s = set_owner (if s.shutdown then idle else starting_wait true) s
  owner_step (starting_wait ends) s = record s { should_notify = true; owner = loading_pause ends }
  owner_step (loading_pause ends) s =
      set_owner (if s.pause then loading_working ends false else loading_queue ends) s
  owner_step (loading_queue ends) s =
      set_owner (if empty s.queue then loading_working ends true else loading_pause ends) s
  owner_step (loading_working ends seen) s =
      set_owner (if s.working_size == 0 then confirming ends seen else loading_pause ends) s
  owner_step (confirming ends seen) s = record s {
    done_spinlock = true;
    owner = gathering ends seen;
  }
  owner_step (gathering ends seen) s =
      set_owner (if s.waiting_size == s.threads then resetting ends seen else gathering ends seen) s
  owner_step (resetting ends seen) s = record s {
    done_spinlock = false;
    owner = after_wait ends seen;
  }
  owner_step (waited seen) s = s
  owner_step (regathering seen) s =
      set_owner (if s.waiting_size == s.threads then shutting seen else regathering seen) s
  owner_step (shutting seen) s = record s { shutdown = true; owner = draining seen }
  owner_step (draining seen) s =
      set_owner (if s.initialized_size == 0 then joining seen else draining seen) s
  owner_step (joining seen) s = s
  owner_step (reopening seen) s = record s { shutdown = false; owner = shut seen }
  owner_step (shut seen) s = s
  owner_step (parallelizing l) s = parallelize l s
  owner_step awaiting s = set_owner (if s.count == 0 then released else awaiting) s
  owner_step released s = s
  owner_step purging s = s

  -- Between calls.
  abbrev pub free : Owner A → Bool
  free idle = true
  free (waited seen) = true
  free (shut seen) = true
  free released = true
  free o = false

  -- A consumer thread or the owner makes its next access, or the owner makes a call. There are fewer than 2 ^ 64 threads, and
  -- fewer than 2 ^ 31 items are awaited at a time.
  pub data Step (c : Config) (s : Executor A) : Executor A → Type 0 where
    run : (t : ℕ) → t < s.threads → Step c s (worker_step c t (s.worker t) s)
    steal :
        (t nth : ℕ) (x : Item A) (l : List (Item A))
        → t < s.threads
        → s.worker t ≡ stealing nth
        → s.queue ≡ x ∷ l
        → Step c s (record s {
          queue = l;
          worker = update s.worker t (if nth == 0 then stolen x else deciding (nth + 1) x);
        })
    miss :
        (t nth : ℕ)
        → t < s.threads
        → s.worker t ≡ stealing nth
        → Step c s (set_worker t (if nth == 0 then suspending else leaving) s)
    run_owner : s.threads + 1 < word → s.count + 1 < 2 ^ 31 → Step c s (owner_step s.owner s)
    submit :
        (a : A)
        → free s.owner ≡ true
        → Step c s (record (push (record { value = a; awaited = false }) s) { owner = idle })
    submit_awaited :
        (a : A)
        → s.count + 1 < 2 ^ 31
        → free s.owner ≡ true
        → Step c s (record (push_awaited a s) { owner = idle })
    spawn :
        (concurrency : ℕ)
        → free s.owner ≡ true
        → Step c s (set_owner (spawning concurrency concurrency) s)
    pause_all : free s.owner ≡ true → Step c s (record s { pause = true; owner = idle })
    resume : free s.owner ≡ true → Step c s (set_owner resuming s)
    wait_all : free s.owner ≡ true → Step c s (set_owner (starting_wait false) s)
    shutdown_all : free s.owner ≡ true → Step c s (set_owner closing s)
    join :
        (seen : Bool)
        → s.owner ≡ joining seen
        → ((t : ℕ) → t < s.threads → s.worker t ≡ gone)
        → Step c s (record s { threads = 0; owner = reopening seen })
    parallel : (l : List A) → free s.owner ≡ true → Step c s (set_owner (parallelizing l) s)
    wait_group : free s.owner ≡ true → Step c s (set_owner awaiting s)
    purge : free s.owner ≡ true → Step c s (set_owner purging s)
    purge_last :
        (l : List (Item A)) (x : Item A)
        → s.owner ≡ purging
        → s.queue ≡ l ++ x ∷ []
        → Step c s (record s { queue = l; purged = x ∷ s.purged })
    purge_end : s.owner ≡ purging → s.queue ≡ [] → Step c s (set_owner idle s)
    cancel : Step c s (record s { cancelled = true })

  pub data Reach (c : Config) : Executor A → Type 0 where
    begin : Reach c start
    next : {s s' : Executor A} → Reach c s → Step c s s' → Reach c s'
