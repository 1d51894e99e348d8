-- ===== src/StealingExecutor/Tests.antt =====
-- An owner with one consumer thread that submits two items and waits for them, or has them consumed in parallel.
use godby.Prelude.{
  ℕ, ◌+◌, ◌^◌, ◌≤◌, ◌≡◌, refl, Bool, true, false, ◌&&◌, and_both, ltb, ltb→lt, some, List, [], ◌∷◌,
  arith, inl, ◌==◌, if◌then◌else◌,
}
use godby.Math.{next_power_of_two, double_until}
use godby.StealingQueue.{StealingQueue}
use godby.StealingQueue.Refine.{IsValid, contents}
use godby.StealingExecutor.Consumer.{Config, Item, must_break}
use godby.StealingExecutor.Totals.{total, sum, awaits, holds}
use godby.StealingExecutor.State.{
  Executor, start, word, waited, released, idle, spawning, starting_wait, parallelizing, set_owner,
}
use godby.StealingExecutor.{
  push, worker_step, owner_step, stolen, deciding, Step, run, steal, run_owner, submit, spawn,
  wait_all, parallel, Reach, begin, next,
}
use godby.StealingExecutor.Waits.{wait_all_lem, wait_group_lem}
use godby.StealingExecutor.Batch.{most, batch_lem}
use godby.StealingExecutor.Create.{create_queue, create_queue_lem}

-- At most one item at a time.
abbrev config : Config
config = record { max_steal_size = 1; pause_check_gap = 4; is_limited = λ cid nth. false }

abbrev few : Executor ℕ → Bool
few s = ltb (s.threads + 1) word && ltb (s.count + 1) (2 ^ 31)

-- The next accesses: of the owner, or of the consumer thread.
abbrev play : List Bool → Executor ℕ → Executor ℕ
play [] s = s
play (true ∷ l) s = play l (if few s then owner_step s.owner s else s)
play (false ∷ l) s = play l (if ltb 0 s.threads then worker_step config 0 (s.worker 0) s else s)

move-Reach :
    (b : Bool) {s s' : Executor ℕ}
    → Reach config s
    → (b ≡ true → Step config s s')
    → Reach config (if b then s' else s)
move-Reach true r h = next r (h refl)
move-Reach false r h = r

play-Reach : (l : List Bool) (s : Executor ℕ) → Reach config s → Reach config (play l s)
play-Reach [] s r = r
play-Reach (true ∷ l) s r = play-Reach l _ (
    move-Reach (few s) r (λ h.
      let (h', h'') = and_both (ltb (s.threads + 1) word) (ltb (s.count + 1) (2 ^ 31)) h in
      run_owner (ltb→lt (s.threads + 1) word h') (ltb→lt (s.count + 1) (2 ^ 31) h'')))
play-Reach (false ∷ l) s r =
    play-Reach l _ (move-Reach (ltb 0 s.threads) r (λ h. run 0 (ltb→lt 0 s.threads h)))

abbrev spawned : Executor ℕ
spawned =
    play (true ∷ true ∷ false ∷ false ∷ true ∷ true ∷ true ∷ []) (set_owner (spawning 1 1) start)

spawned-Reach : Reach config spawned
spawned-Reach =
    play-Reach (true ∷ true ∷ false ∷ false ∷ true ∷ true ∷ true ∷ []) _ (next begin (spawn 1 refl))

abbrev submits : ℕ → Executor ℕ → Executor ℕ
submits a s = record (push (record { value = a; awaited = false }) s) { owner = idle }

abbrev ready : Executor ℕ
ready = play (false ∷ false ∷ false ∷ []) (submits 8 (submits 7 spawned))

abbrev item : ℕ → Item ℕ
item a = record { value = a; awaited = false }

abbrev second : Executor ℕ
second = play (false ∷ false ∷ false ∷ []) (record ready {
  queue = item 8 ∷ [];
  worker = λ t. if 0 == t then (stolen (item 7)) else ready.worker t;
})

ready-Reach : Reach config ready
unfolding owner_step worker_step
ready-Reach =
    play-Reach (false ∷ false ∷ false ∷ []) _
      (next (next spawned-Reach (submit 7 refl)) (submit 8 refl))

second-Reach : Reach config second
unfolding owner_step worker_step
second-Reach =
    play-Reach (false ∷ false ∷ false ∷ []) _
      (next ready-Reach (steal 0 0 (item 7) (item 8 ∷ []) (omega arith) refl refl))

-- The limit of one item does not keep the thread from taking a second one.
abbrev both : Executor ℕ
both = play (false ∷ []) (record second {
  queue = [];
  worker = λ t. if 0 == t then deciding 2 (item 8) else second.worker t;
})

both-Reach : Reach config both
unfolding owner_step worker_step
both-Reach =
    play-Reach (false ∷ []) _ (next second-Reach (steal 0 1 (item 8) [] (omega arith) refl refl))

abbrev served : Executor ℕ
served = play (false ∷ []) both

served-Reach : Reach config served
unfolding owner_step worker_step
served-Reach = play-Reach (false ∷ []) _ both-Reach

served-cancelled : served.cancelled ≡ false
unfolding owner_step worker_step
served-cancelled = refl

served-batch : served.batch 0 ≡ 2
unfolding owner_step worker_step
served-batch = refl

batch_lem_example : served.batch 0 ≤ most config
batch_lem_example = batch_lem config (λ e. omega (arith, e)) served-Reach served-cancelled 0

abbrev after : Executor ℕ
after = play (true ∷ true ∷ true ∷ true ∷ true ∷ true ∷ true ∷ []) (
    set_owner (starting_wait false)
      (play (false ∷ false ∷ false ∷ false ∷ false ∷ false ∷ false ∷ []) both))

after-Reach : Reach config after
unfolding owner_step worker_step must_break next_power_of_two double_until
after-Reach = play-Reach (true ∷ true ∷ true ∷ true ∷ true ∷ true ∷ true ∷ []) _ (
    next (play-Reach (false ∷ false ∷ false ∷ false ∷ false ∷ false ∷ false ∷ []) _ both-Reach)
      (wait_all refl))

after-waited : after.owner ≡ waited true
unfolding owner_step worker_step must_break next_power_of_two double_until
after-waited = refl

wait_all_lem_example :
    (after.queue ≡ [])
    × (total holds after.worker after.threads ≡ 0)
    × ((w : Item ℕ → ℕ)
        → sum w after.submitted ≡ sum w after.consumed + sum w after.cleaned + sum w after.purged)
wait_all_lem_example = wait_all_lem after-Reach (inl after-waited)

create_queue_lem_example :
    (k : ℕ) × (q : StealingQueue ℕ) × (create_queue 0 1000 ≡ some q)
    × IsValid k q
    × (contents 0 q ≡ [])
    × (next_power_of_two 1000 ≡ 2 ^ k)
    × (1000 ≤ 2 ^ k)
    × ((i : ℕ) → 1000 ≤ 2 ^ i → 2 ^ k ≤ 2 ^ i)
create_queue_lem_example = create_queue_lem 0 1000 (omega arith)

-- The same items in parallel, each with a waiter.
abbrev pushed : Executor ℕ
pushed =
    play (true ∷ true ∷ true ∷ false ∷ false ∷ false ∷ [])
      (set_owner (parallelizing (7 ∷ 8 ∷ [])) spawned)

abbrev awaited : ℕ → Item ℕ
awaited a = record { value = a; awaited = true }

-- The thread consumes one item, and counts it as done.
abbrev first_done : Executor ℕ
first_done = play (false ∷ false ∷ false ∷ false ∷ []) (record pushed {
  queue = awaited 8 ∷ [];
  worker = λ t. if 0 == t then (stolen (awaited 7)) else pushed.worker t;
})

abbrev both_done : Executor ℕ
both_done = play (false ∷ false ∷ false ∷ true ∷ []) (record first_done {
  queue = [];
  worker = λ t. if 0 == t then deciding 2 (awaited 8) else first_done.worker t;
})

both_done-Reach : Reach config both_done
unfolding owner_step worker_step
both_done-Reach = play-Reach (false ∷ false ∷ false ∷ true ∷ []) _ (
    next
      (play-Reach (false ∷ false ∷ false ∷ false ∷ []) _ (
        next
          (play-Reach (true ∷ true ∷ true ∷ false ∷ false ∷ false ∷ []) _
            (next spawned-Reach (parallel (7 ∷ 8 ∷ []) refl)))
          (steal 0 0 (awaited 7) (awaited 8 ∷ []) (omega arith) refl refl)))
      (steal 0 1 (awaited 8) [] (omega arith) refl refl))

both_done-released : both_done.owner ≡ released
unfolding owner_step worker_step
both_done-released = refl

wait_group_lem_example :
    sum awaits both_done.submitted ≡ sum awaits both_done.consumed + sum awaits both_done.cleaned
wait_group_lem_example = wait_group_lem both_done-Reach both_done-released awaits (λ x h. h)
