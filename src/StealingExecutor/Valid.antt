-- ===== src/StealingExecutor/Valid.antt =====
-- The invariant of an executor, and the steps of its consumer threads.
use godby.Prelude.{ℕ, ◌+◌, ◌≤◌, ◌<◌, ◌≡◌, sym, ap, subst, Bool, true, [], arith, update}
use godby.StealingExecutor.Consumer.{Item, Worker}
use godby.StealingExecutor.Totals.{
  total, total-update, le_total, total-le, sum, awaits, carried, pending, holds, waits,
}
use godby.StealingExecutor.State.{
  Owner, idle, spawning, joining_in, resuming, unnotifying, closing, starting_wait, loading_pause,
  loading_queue, loading_working, confirming, gathering, resetting, waited, regathering, shutting,
  draining, joining, reopening, shut, parallelizing, awaiting, released, purging, Executor, word,
}

module _ {A : Type 0} where
  abbrev pub Drained : Bool → Executor A → Type 0
  Drained seen s = seen ≡ true → s.queue ≡ []

  abbrev pub Finished : Bool → Executor A → Type 0
  Finished seen s = seen ≡ true → (s.queue ≡ []) × (total holds s.worker s.threads ≡ 0)

  -- What the owner knows.
  abbrev pub Place : Owner A → Executor A → Type 0
  Place idle s = Unit
  Place (spawning concurrency left) s = Unit
  Place (joining_in concurrency) s = Unit
  Place resuming s = Unit
  Place unnotifying s = Unit
  Place closing s = Unit
  Place (starting_wait ends) s = Unit
  Place (loading_pause ends) s = Unit
  Place (loading_queue ends) s = Unit
  Place (loading_working ends seen) s = Drained seen s
  Place (confirming ends seen) s = Drained seen s
  Place (gathering ends seen) s = Drained seen s
  Place (resetting ends seen) s = Finished seen s
  Place (waited seen) s = Finished seen s
  Place (regathering seen) s = Finished seen s
  Place (shutting seen) s = Finished seen s
  Place (draining seen) s = Finished seen s
  Place (joining seen) s = Finished seen s
  Place (reopening seen) s = Finished seen s
  Place (shut seen) s = Finished seen s
  Place (parallelizing l) s = Unit
  Place awaiting s = Unit
  Place released s = s.count ≡ 0
  Place purging s = Unit

  pub record Valid (s : Executor A) : Type 0 where
    pub few : s.threads < word
    pub waiting : s.waiting_size ≡ total waits s.worker s.threads
    pub kept :
        (w : Item A → ℕ)
        → sum w s.submitted
          ≡ sum w s.queue
            + total (carried w) s.worker s.threads
            + (sum w s.consumed + sum w s.cleaned + sum w s.purged)
    pub awaited :
        s.count ≡ sum awaits s.queue + total pending s.worker s.threads + sum awaits s.purged
    pub place : Place s.owner s

  -- A step that takes nothing back from what the owner knows.
  pub record Keeps (s s' : Executor A) : Type 0 where
    pub queue : s.queue ≡ [] → s'.queue ≡ []
    pub held :
        s.queue ≡ [] → total holds s.worker s.threads ≡ 0 → total holds s'.worker s'.threads ≡ 0
    pub count : s.count ≡ 0 → s'.count ≡ 0

  pub kept-Place : (o : Owner A) (s s' : Executor A) → Keeps s s' → Place o s → Place o s'
  kept-Place idle s s' k p = tt
  kept-Place (spawning concurrency left) s s' k p = tt
  kept-Place (joining_in concurrency) s s' k p = tt
  kept-Place resuming s s' k p = tt
  kept-Place unnotifying s s' k p = tt
  kept-Place closing s s' k p = tt
  kept-Place (starting_wait ends) s s' k p = tt
  kept-Place (loading_pause ends) s s' k p = tt
  kept-Place (loading_queue ends) s s' k p = tt
  kept-Place (loading_working ends seen) s s' k p = λ h. k.queue (p h)
  kept-Place (confirming ends seen) s s' k p = λ h. k.queue (p h)
  kept-Place (gathering ends seen) s s' k p = λ h. k.queue (p h)
  kept-Place (resetting ends seen) s s' k p = λ h. (k.queue (p h).0, k.held (p h).0 (p h).1)
  kept-Place (waited seen) s s' k p = λ h. (k.queue (p h).0, k.held (p h).0 (p h).1)
  kept-Place (regathering seen) s s' k p = λ h. (k.queue (p h).0, k.held (p h).0 (p h).1)
  kept-Place (shutting seen) s s' k p = λ h. (k.queue (p h).0, k.held (p h).0 (p h).1)
  kept-Place (draining seen) s s' k p = λ h. (k.queue (p h).0, k.held (p h).0 (p h).1)
  kept-Place (joining seen) s s' k p = λ h. (k.queue (p h).0, k.held (p h).0 (p h).1)
  kept-Place (reopening seen) s s' k p = λ h. (k.queue (p h).0, k.held (p h).0 (p h).1)
  kept-Place (shut seen) s s' k p = λ h. (k.queue (p h).0, k.held (p h).0 (p h).1)
  kept-Place (parallelizing l) s s' k p = tt
  kept-Place awaiting s s' k p = tt
  kept-Place released s s' k p = k.count p
  kept-Place purging s s' k p = tt

  -- What a step of a consumer thread from `p` to `p'` does to the sums.
  pub record Effect (p p' : Worker A) (s s' : Executor A) : Type 0 where
    pub waiting :
        waits p ≤ s.waiting_size
        → s.waiting_size + waits p' < word + waits p
        → s'.waiting_size + waits p ≡ s.waiting_size + waits p'
    pub kept :
        (w : Item A → ℕ)
        → carried w p + sum w s.queue + (sum w s.consumed + sum w s.cleaned)
          ≡ carried w p' + sum w s'.queue + (sum w s'.consumed + sum w s'.cleaned)
    pub awaited :
        pending p ≤ s.count
        → s'.count + sum awaits s.queue + pending p ≡ s.count + sum awaits s'.queue + pending p'
    pub queue : s.queue ≡ [] → s'.queue ≡ []
    pub held : s.queue ≡ [] → holds p' ≤ holds p
    pub count : s.count ≡ 0 → s'.count ≡ 0

  waits-le : (p : Worker A) → waits p ≤ 1
  waits-le p = ground arith

  pub moved-Valid :
      (s s' : Executor A) (t : ℕ) (p' : Worker A)
      → t < s.threads
      → s'.worker ≡ update s.worker t p'
      → s'.threads ≡ s.threads
      → s'.owner ≡ s.owner
      → s'.submitted ≡ s.submitted
      → s'.purged ≡ s.purged
      → Effect (s.worker t) p' s s'
      → Valid s
      → Valid s'
  moved-Valid s s' t p' low e e' eo es ep f v = record {
    few = omega (arith, v.few, e');
    waiting =
        subst (λ g. s'.waiting_size ≡ total waits g s'.threads) (sym e)
          (subst (λ n. s'.waiting_size ≡ total waits (update s.worker t p') n) (sym e')
            (omega (
              arith,
              total-update waits s.worker t s.threads p' low,
              f.waiting (omega (arith, v.waiting, le_total waits s.worker t s.threads low)) (
                  omega (
                    arith,
                    v.few,
                    v.waiting,
                    total-le waits (update s.worker t p') s.threads waits-le,
                    total-update waits s.worker t s.threads p' low,
                  )),
              v.waiting,
            )));
    kept = λ w.
        subst
          (λ g.
            sum w s'.submitted
            ≡ sum w s'.queue
              + total (carried w) g s'.threads
              + (sum w s'.consumed + sum w s'.cleaned + sum w s'.purged))
          (sym e)
          (subst
            (λ n.
              sum w s'.submitted
              ≡ sum w s'.queue
                + total (carried w) (update s.worker t p') n
                + (sum w s'.consumed + sum w s'.cleaned + sum w s'.purged))
            (sym e')
            (omega (
              arith,
              ap (sum w) es,
              ap (sum w) ep,
              v.kept w,
              f.kept w,
              total-update (carried w) s.worker t s.threads p' low,
            )));
    awaited =
        subst
          (λ g. s'.count ≡ sum awaits s'.queue + total pending g s'.threads + sum awaits s'.purged)
          (sym e)
          (subst
            (λ n.
              s'.count
              ≡ sum awaits s'.queue + total pending (update s.worker t p') n + sum awaits s'.purged)
            (sym e')
            (omega (
              arith,
              ap (sum awaits) ep,
              v.awaited,
              f.awaited (omega (arith, v.awaited, le_total pending s.worker t s.threads low)),
              total-update pending s.worker t s.threads p' low,
            )));
    place =
        subst (λ o. Place o s') (sym eo)
          (kept-Place s.owner s s'
            (record {
              queue = f.queue;
              held = λ q h.
                  subst (λ g. total holds g s'.threads ≡ 0) (sym e)
                    (subst (λ n. total holds (update s.worker t p') n ≡ 0) (sym e')
                      (omega (
                        arith,
                        h,
                        f.held q,
                        le_total holds s.worker t s.threads low,
                        total-update holds s.worker t s.threads p' low,
                      )));
              count = f.count;
            })
            v.place);
  }
