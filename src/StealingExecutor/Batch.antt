-- ===== src/StealingExecutor/Batch.antt =====
-- How many items a consumer thread takes at a time.
use godby.Prelude.{
  ℕ, zero, suc, ◌+◌, ◌-◌, ◌≤◌, ◌<◌, ◌≡◌, ◌≢◌, refl, sym, subst, Bool, true, false, not, ◌&&◌, List,
  [], ◌∷◌, arith, inl, inr, update, update_cases, Bool-cases, ◌==◌, if◌then◌else◌,
}
use godby.StealingExecutor.Consumer.{
  Config, Worker, absent, starting, entering, testing, waking, looking, stealing, stolen, deciding,
  consuming, cleaning, signalling, limiting, leaving, suspending, counting, notifying, tearing,
  gone, after_item, go_on, must_break,
}
use godby.StealingExecutor.State.{
  Owner, idle, spawning, joining_in, resuming, unnotifying, closing, starting_wait, loading_pause,
  loading_queue, loading_working, confirming, gathering, resetting, waited, regathering, shutting,
  draining, joining, reopening, shut, parallelizing, awaiting, released, purging, Executor, empty,
}
use godby.StealingExecutor.{
  worker_step, owner_step, spawn_more, parallelize, Step, run, steal, miss, run_owner, submit,
  submit_awaited, spawn, pause_all, resume, wait_all, shutdown_all, join, parallel, wait_group,
  purge, purge_last, purge_end, cancel, Reach, begin, next,
}

-- `max_steal_size`, or 2 if that is less.
abbrev pub most : Config → ℕ
most c = 2 + (c.max_steal_size - 2)

must_break-false :
    (c : Config) (pause : Bool) (t nth : ℕ)
    → c.max_steal_size ≢ 0
    → must_break c pause t nth ≡ false
    → nth < most c
unfolding must_break
must_break-false c pause t nth pos h = ground arith

module _ (A : Type 0) (c : Config) where
  -- Where a thread that has consumed `b` items since it woke up may stand.
  abbrev Within : ℕ → Worker A → Type 0
  Within b absent = b ≤ most c
  Within b starting = b ≤ most c
  Within b entering = b ≤ most c
  Within b testing = b ≤ most c
  Within b waking = b ≤ most c
  Within b looking = b ≡ 0
  Within b (stealing nth) = (b ≤ nth) × (nth < most c)
  Within b (stolen x) = b ≡ 0
  Within b (deciding nth x) = (b < nth) × (nth ≤ most c)
  Within b (consuming nth x) = (b < nth) × (nth ≤ most c)
  Within b (cleaning nth x) = ⊥
  Within b (signalling nth checks) = (b ≤ nth) × (nth ≤ most c) × (checks ≡ false → nth < most c)
  Within b (limiting nth) = (b ≤ nth) × (nth ≤ most c)
  Within b leaving = b ≤ most c
  Within b suspending = b ≤ most c
  Within b counting = b ≤ most c
  Within b notifying = b ≤ most c
  Within b tearing = b ≤ most c
  Within b gone = b ≤ most c

  abbrev Bounded : Executor A → Type 0
  Bounded s = s.cancelled ≡ false → (t : ℕ) → Within (s.batch t) (s.worker t)

  Within-most : (b : ℕ) (p : Worker A) → Within b p → b ≤ most c
  Within-most b absent h = h
  Within-most b starting h = h
  Within-most b entering h = h
  Within-most b testing h = h
  Within-most b waking h = h
  Within-most b looking h = omega (arith, h)
  Within-most b (stealing nth) h = omega (arith, h.0, h.1)
  Within-most b (stolen x) h = omega (arith, h)
  Within-most b (deciding nth x) h = omega (arith, h.0, h.1)
  Within-most b (consuming nth x) h = omega (arith, h.0, h.1)
  Within-most b (cleaning nth x) h = absurd h
  Within-most b (signalling nth checks) h = omega (arith, h.0, h.1)
  Within-most b (limiting nth) h = omega (arith, h.0, h.1)
  Within-most b leaving h = h
  Within-most b suspending h = h
  Within-most b counting h = h
  Within-most b notifying h = h
  Within-most b tearing h = h
  Within-most b gone h = h

  Within-if :
      (b : ℕ) (test : Bool) (x y : Worker A)
      → (test ≡ true → Within b x)
      → (test ≡ false → Within b y)
      → Within b (if test then x else y)
  Within-if b true x y h h' = h refl
  Within-if b false x y h h' = h' refl

  -- A thread goes on, and the others stay.
  update-Within :
      (g : ℕ → Worker A) (n : ℕ → ℕ) (t : ℕ) (p : Worker A)
      → Within (n t) p
      → ((u : ℕ) → Within (n u) (g u))
      → (u : ℕ) → Within (n u) (update g t p u)
  update-Within g n t p own all u = elim (update_cases g t p u) [
    | inl (same, e) ↦ subst (Within (n u)) (sym e) (subst (λ x. Within (n x) p) same own)
    | inr e ↦ subst (Within (n u)) (sym e) (all u)
  ]

  -- It goes on, and the number of its items changes.
  both-Within :
      (g : ℕ → Worker A) (n : ℕ → ℕ) (t : ℕ) (p : Worker A) (b : ℕ)
      → Within b p
      → ((u : ℕ) → Within (n u) (g u))
      → (u : ℕ) → Within (update n t b u) (update g t p u)
  both-Within g n t p b own all u = elim (Bool-cases (t == u)) [
    | inl here ↦ rw here own
    | inr away ↦ rw away (all u)
  ]

  go_on-Within :
      (b nth : ℕ) (checks : Bool)
      → b ≤ nth
      → nth ≤ most c
      → (checks ≡ false → nth < most c)
      → Within b (go_on nth checks)
  go_on-Within b nth true k l h = (k, l)
  go_on-Within b nth false k l h = (k, h refl)

  after_item-Within :
      (b nth : ℕ) (checks awaited : Bool)
      → b ≤ nth
      → nth ≤ most c
      → (checks ≡ false → nth < most c)
      → Within b (after_item nth checks awaited)
  after_item-Within b nth checks true k l h = (k, l, h)
  after_item-Within b nth checks false k l h = go_on-Within b nth checks k l h

  worker_step-Bounded :
      (t : ℕ) (p : Worker A) (s : Executor A)
      → c.max_steal_size ≢ 0
      → s.worker t ≡ p
      → Bounded s
      → Bounded (worker_step c t p s)
  unfolding worker_step
  worker_step-Bounded t absent s pos e b n = b n
  worker_step-Bounded t starting s pos e b n =
      update-Within s.worker s.batch t _ (subst (Within (s.batch t)) e (b n t)) (b n)
  worker_step-Bounded t entering s pos e b n =
      update-Within s.worker s.batch t _ (subst (Within (s.batch t)) e (b n t)) (b n)
  worker_step-Bounded t testing s pos e b n =
      update-Within s.worker s.batch t _
        (Within-if (s.batch t) (empty s.queue && not s.shutdown) testing waking
          (λ _. (subst (Within (s.batch t)) e (b n t)))
          (λ _. (subst (Within (s.batch t)) e (b n t))))
        (b n)
  worker_step-Bounded t waking s pos e b n = both-Within s.worker s.batch t looking 0 refl (b n)
  worker_step-Bounded t looking s pos e b n =
      update-Within s.worker s.batch t _
        (Within-if (s.batch t) s.shutdown tearing (stealing 0)
          (λ _. omega (arith, (subst (Within (s.batch t)) e (b n t))))
          (λ _. (omega (arith, (subst (Within (s.batch t)) e (b n t))), omega arith)))
        (b n)
  worker_step-Bounded t (stealing nth) s pos e b n = b n
  worker_step-Bounded t (stolen x) s pos e b n =
      update-Within s.worker s.batch t _
        (omega (arith, (subst (Within (s.batch t)) e (b n t))), omega arith) (b n)
  worker_step-Bounded t (deciding nth x) s pos e b n =
      update-Within s.worker s.batch t _
        (Within-if (s.batch t) s.cancelled (cleaning nth x) (consuming nth x) (λ h. absurd (cc))
          (λ _. (subst (Within (s.batch t)) e (b n t))))
        (b n)
  worker_step-Bounded t (consuming nth x) s pos e b n =
      let h = subst (Within (s.batch t)) e (b n t) in
      both-Within s.worker s.batch t _ (s.batch t + 1)
        (after_item-Within (s.batch t + 1) nth (not (nth == 1)) x.awaited (omega (arith, h.0)) h.1
          (λ one. ground arith))
        (b n)
  worker_step-Bounded t (cleaning nth x) s pos e b n = absurd (subst (Within (s.batch t)) e (b n t))
  worker_step-Bounded t (signalling nth checks) s pos e b n =
      let h = subst (Within (s.batch t)) e (b n t) in
      update-Within s.worker s.batch t _ (go_on-Within (s.batch t) nth checks h.0 h.1 h.2) (b n)
  worker_step-Bounded t (limiting nth) s pos e b n =
      let h = subst (Within (s.batch t)) e (b n t) in
      update-Within s.worker s.batch t _
        (Within-if (s.batch t) (must_break c s.pause t nth) leaving (stealing nth)
          (λ _. omega (arith, h.0, h.1)) (λ off. (h.0, must_break-false c s.pause t nth pos off)))
        (b n)
  worker_step-Bounded t leaving s pos e b n =
      update-Within s.worker s.batch t _ (subst (Within (s.batch t)) e (b n t)) (b n)
  worker_step-Bounded t suspending s pos e b n =
      update-Within s.worker s.batch t _
        (Within-if (s.batch t) (empty s.queue) counting entering
          (λ _. (subst (Within (s.batch t)) e (b n t)))
          (λ _. (subst (Within (s.batch t)) e (b n t))))
        (b n)
  worker_step-Bounded t counting s pos e b n =
      update-Within s.worker s.batch t _
        (Within-if (s.batch t) (s.working_size == 0) notifying entering
          (λ _. (subst (Within (s.batch t)) e (b n t)))
          (λ _. (subst (Within (s.batch t)) e (b n t))))
        (b n)
  worker_step-Bounded t notifying s pos e b n =
      update-Within s.worker s.batch t _
        (Within-if (s.batch t)
          (s.should_notify && (not s.done_spinlock && (s.working_size == 0 && empty s.queue)))
          notifying entering (λ _. (subst (Within (s.batch t)) e (b n t)))
          (λ _. (subst (Within (s.batch t)) e (b n t))))
        (b n)
  worker_step-Bounded t tearing s pos e b n =
      update-Within s.worker s.batch t _ (subst (Within (s.batch t)) e (b n t)) (b n)
  worker_step-Bounded t gone s pos e b n = b n

  owner_step-Bounded : (o : Owner A) (s : Executor A) → Bounded s → Bounded (owner_step o s)
  unfolding owner_step
  owner_step-Bounded o s b = from o
    where
      more : (concurrency left : ℕ) → Bounded (spawn_more concurrency left s)
      more concurrency zero = b
      more concurrency (suc left) = λ n.
          update-Within s.worker s.batch s.threads starting
            (Within-most (s.batch s.threads) (s.worker s.threads) (b n s.threads)) (b n)

      all : (l : List A) → Bounded (parallelize l s)
      all [] = b
      all (a ∷ l) = b

      from : (o : Owner A) → Bounded (owner_step o s)
      from idle = b
      from (spawning concurrency left) = more concurrency left
      from (joining_in concurrency) = b
      from resuming = b
      from unnotifying = b
      from closing = b
      from (starting_wait ends) = b
      from (loading_pause ends) = b
      from (loading_queue ends) = b
      from (loading_working ends seen) = b
      from (confirming ends seen) = b
      from (gathering ends seen) = b
      from (resetting ends seen) = b
      from (waited seen) = b
      from (regathering seen) = b
      from (shutting seen) = b
      from (draining seen) = b
      from (joining seen) = b
      from (reopening seen) = b
      from (shut seen) = b
      from (parallelizing l) = all l
      from awaiting = b
      from released = b
      from purging = b

  Step-Bounded : {s s' : Executor A} → c.max_steal_size ≢ 0 → Step c s s' → Bounded s → Bounded s'
  Step-Bounded {s} pos (run t low) b = worker_step-Bounded t (s.worker t) s pos refl b
  Step-Bounded {s} pos (steal t nth x l low e q) b = λ n.
      let h = subst (Within (s.batch t)) e (b n t) in
      update-Within s.worker s.batch t _
        (Within-if (s.batch t) (nth == 0) (stolen x) (deciding (nth + 1) x)
          (λ first. ground (arith, h.0)) (λ _. (omega (arith, h.0), omega (arith, h.1))))
        (b n)
  Step-Bounded {s} pos (miss t nth low e) b = λ n.
      let h = subst (Within (s.batch t)) e (b n t) in
      update-Within s.worker s.batch t _
        (Within-if (s.batch t) (nth == 0) suspending leaving (λ _. omega (arith, h.0, h.1))
          (λ _. omega (arith, h.0, h.1)))
        (b n)
  Step-Bounded {s} pos (run_owner few small) b = owner_step-Bounded s.owner s b
  Step-Bounded pos (submit a h) b = b
  Step-Bounded pos (submit_awaited a small h) b = b
  Step-Bounded pos (spawn n h) b = b
  Step-Bounded pos (pause_all h) b = b
  Step-Bounded pos (resume h) b = b
  Step-Bounded pos (wait_all h) b = b
  Step-Bounded pos (shutdown_all h) b = b
  Step-Bounded pos (join seen e all) b = b
  Step-Bounded pos (parallel l h) b = b
  Step-Bounded pos (wait_group h) b = b
  Step-Bounded pos (purge h) b = b
  Step-Bounded pos (purge_last l x e q) b = b
  Step-Bounded pos (purge_end e q) b = b
  Step-Bounded pos cancel b = λ (n : true ≡ false). absurd (cc)

  Reach-Bounded : {s : Executor A} → c.max_steal_size ≢ 0 → Reach c s → Bounded s
  Reach-Bounded pos begin = λ n t. omega arith
  Reach-Bounded pos (next before step) = Step-Bounded pos step (Reach-Bounded pos before)

-- However the owner and its consumer threads interleave, for a max_steal_size that is not 0 and while the executor has not been
-- cancelled: the number of items that a consumer thread has consumed since it woke up is at most max_steal_size, or 2 if
-- that is less.
pub batch_lem :
    {A : Type 0} (c : Config) {s : Executor A}
    → c.max_steal_size ≢ 0
    → Reach c s
    → s.cancelled ≡ false
    → (t : ℕ) → s.batch t ≤ most c
batch_lem {A} c {s} pos reach n t =
    Within-most A c (s.batch t) (s.worker t) (Reach-Bounded A c pos reach n t)
