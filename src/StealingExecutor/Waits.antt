-- ===== src/StealingExecutor/Waits.antt =====
-- What has become of the items when the owner's waits return.
use godby.Prelude.{ℕ, ◌+◌, ◌≡◌, refl, ap, subst, true, false, [], arith, inl, inr, ◌⊎◌}
use godby.StealingExecutor.Consumer.{Config, Item, Worker}
use godby.StealingExecutor.Totals.{
  total, total_none, sum, sum_none, awaits, carried, pending, holds,
}
use godby.StealingExecutor.State.{
  idle, spawning, starting_wait, closing, resuming, waited, shut, parallelizing, awaiting, released,
  purging, Executor,
}
use godby.StealingExecutor.{
  Step, run, steal, miss, run_owner, submit, submit_awaited, spawn, pause_all, resume, wait_all,
  shutdown_all, join, parallel, wait_group, purge, purge_last, purge_end, cancel, Reach, begin,
  next,
}
use godby.StealingExecutor.Valid.{kept-Place, Place, Finished, Valid}
use godby.StealingExecutor.Workers.{worker_step-Valid}
use godby.StealingExecutor.Takes.{steal-Valid, miss-Valid}
use godby.StealingExecutor.Owners.{
  with_flags-Valid, set_owner-Valid, push-Valid, join-Valid, purge_last-Valid, owner_step-Valid,
}

module _ {A : Type 0} {c : Config} where
  Step-Valid : {s s' : Executor A} → Step c s s' → Valid s → Valid s'
  Step-Valid {s} (run t low) v = worker_step-Valid c t s low v (s.worker t) refl
  Step-Valid {s} (steal t nth x l low e q) v = steal-Valid t s low v nth x l e q
  Step-Valid {s} (miss t nth low e) v = miss-Valid t s low v nth e
  Step-Valid {s} (run_owner few small) v = owner_step-Valid s v s.owner refl few
  Step-Valid {s} (submit a h) v =
      push-Valid s v (record { value = a; awaited = false }) s.count idle (omega arith) tt
  Step-Valid {s} (submit_awaited a small h) v =
      push-Valid s v (record { value = a; awaited = true }) (s.count + 1) idle refl tt
  Step-Valid {s} (spawn n h) v = set_owner-Valid s v (spawning n n) tt
  Step-Valid {s} (pause_all h) v =
      with_flags-Valid s v idle true s.shutdown s.should_notify s.done_spinlock s.cancelled tt
  Step-Valid {s} (resume h) v = set_owner-Valid s v resuming tt
  Step-Valid {s} (wait_all h) v = set_owner-Valid s v (starting_wait false) tt
  Step-Valid {s} (shutdown_all h) v = set_owner-Valid s v closing tt
  Step-Valid {s} (join seen e all) v = join-Valid s v seen e all
  Step-Valid {s} (parallel l h) v = set_owner-Valid s v (parallelizing l) tt
  Step-Valid {s} (wait_group h) v = set_owner-Valid s v awaiting tt
  Step-Valid {s} (purge h) v = set_owner-Valid s v purging tt
  Step-Valid {s} (purge_last l x e q) v = purge_last-Valid s v l x e q
  Step-Valid {s} (purge_end e q) v = set_owner-Valid s v idle tt
  Step-Valid {s} cancel v =
      with_flags-Valid s v s.owner s.pause s.shutdown s.should_notify s.done_spinlock true (
        kept-Place s.owner s (record s { cancelled = true })
          (record { queue = λ h. h; held = λ q h. h; count = λ h. h }) v.place)

  Reach-Valid : {s : Executor A} → Reach c s → Valid s
  Reach-Valid begin = record {
    few = omega arith;
    waiting = refl;
    kept = λ w. refl;
    awaited = refl;
    place = tt;
  }
  Reach-Valid (next before step) = Step-Valid step (Reach-Valid before)

none_left :
    {A : Type 0} (s : Executor A)
    → Valid s
    → Finished true s
    → (w : Item A → ℕ) → sum w s.submitted ≡ sum w s.consumed + sum w s.cleaned + sum w s.purged
none_left {A} s v f w = omega (
  arith,
  v.kept w,
  ap (sum w) (f refl).0,
  total_none holds (carried w) s.worker s.threads carries_none (f refl).1,
)
  where
    carries_none : (p : Worker A) → holds p ≡ 0 → carried w p ≡ 0
    carries_none p h = ground arith

-- However the owner and its consumer threads interleave, with fewer than 2 ^ 64 threads and fewer than 2 ^ 31 items that are
-- awaited at a time: when WaitAll, or Shutdown, has returned after it has found the queue to be empty, rather than the executor
-- paused, the queue is empty, no consumer thread has an item, and for every weight of items what has been consumed,
-- cleaned up and purged is what has been submitted.
pub wait_all_lem :
    {A : Type 0} {c : Config} {s : Executor A}
    → Reach c s
    → (s.owner ≡ waited true) ⊎ (s.owner ≡ shut true)
    → (s.queue ≡ [])
      × (total holds s.worker s.threads ≡ 0)
      × ((w : Item A → ℕ) → sum w s.submitted ≡ sum w s.consumed + sum w s.cleaned + sum w s.purged)
wait_all_lem {s} reach returned = ((f refl).0, (f refl).1, none_left s v f)
  where
    v : Valid s
    v = Reach-Valid reach

    f : Finished true s
    f = elim returned [
      | inl e ↦ subst (λ o. Place o s) e v.place
      | inr e ↦ subst (λ o. Place o s) e v.place
    ]

-- A thread that has nothing to count as done has no item that is awaited.
pending_none :
    {A : Type 0} (w : Item A → ℕ)
    → ((x : Item A) → awaits x ≡ 0 → w x ≡ 0)
    → (p : Worker A) → pending p ≡ 0
    → carried w p ≡ 0
pending_none w only p h = grind (arith, only)

-- However they interleave, with so many threads and items: when the wait for a WaitGroup has returned, by itself or in Parallelize,
-- the items that were submitted with it have been consumed or cleaned up, as often as they were submitted.
pub wait_group_lem :
    {A : Type 0} {c : Config} {s : Executor A}
    → Reach c s
    → s.owner ≡ released
    → (w : Item A → ℕ) → ((x : Item A) → awaits x ≡ 0 → w x ≡ 0)
    → sum w s.submitted ≡ sum w s.consumed + sum w s.cleaned
wait_group_lem {s} reach e w only = omega (
  arith,
  v.kept w,
  sum_none awaits w s.queue only (omega (arith, v.awaited, zero_count)),
  sum_none awaits w s.purged only (omega (arith, v.awaited, zero_count)),
  total_none pending (carried w) s.worker s.threads (pending_none w only)
      (omega (arith, v.awaited, zero_count)),
)
  where
    v : Valid s
    v = Reach-Valid reach

    zero_count : s.count ≡ 0
    zero_count = subst (λ o. Place o s) e v.place
