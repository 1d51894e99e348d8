-- ===== src/StealingExecutor/Owners.antt =====
-- Each access and each call of the owner keeps the invariant.
use godby.Prelude.{
  ℕ, zero, suc, ◌+◌, ◌≤◌, ◌<◌, ◌≡◌, refl, sym, ◌∙◌, ap, subst, Bool, true, false, List, [], ◌∷◌,
  ◌++◌, arith, ◌==◌, ==_iff, if◌then◌else◌,
}
use godby.StealingExecutor.Consumer.{Item, Worker, starting, gone}
use godby.StealingExecutor.Totals.{
  total-new, total_all, total-gone, sum, sum-append, awaits, carried, pending, holds, waits,
}
use godby.StealingExecutor.State.{
  Owner, idle, spawning, joining_in, resuming, unnotifying, closing, starting_wait, loading_pause,
  loading_queue, loading_working, confirming, gathering, resetting, waited, regathering, shutting,
  draining, joining, reopening, shut, parallelizing, awaiting, released, purging, Executor, word,
  empty, set_owner,
}
use godby.StealingExecutor.{push, emplace, spawn_more, parallelize, after_wait, owner_step}
use godby.StealingExecutor.Valid.{Finished, Drained, Place, Valid}

module _ {A : Type 0} where
  abbrev pub with_flags : Owner A → Bool → Bool → Bool → Bool → Bool → Executor A → Executor A
  with_flags o pause shutdown should_notify done_spinlock cancelled s = record s {
    owner = o;
    pause = pause;
    shutdown = shutdown;
    should_notify = should_notify;
    done_spinlock = done_spinlock;
    cancelled = cancelled;
  }

  module _ (s : Executor A) (v : Valid s) where
    pub with_flags-Valid :
        (o : Owner A) (a b c d e : Bool)
        → Place o (with_flags o a b c d e s)
        → Valid (with_flags o a b c d e s)
    with_flags-Valid o a b c d e p = record {
      few = v.few;
      waiting = v.waiting;
      kept = v.kept;
      awaited = v.awaited;
      place = p;
    }

    pub set_owner-Valid : (o : Owner A) → Place o (set_owner o s) → Valid (set_owner o s)
    set_owner-Valid o p =
        with_flags-Valid o s.pause s.shutdown s.should_notify s.done_spinlock s.cancelled p

    -- An item is submitted.
    pub push-Valid :
        (x : Item A) (n : ℕ) (o : Owner A)
        → n ≡ s.count + awaits x
        → (let s' = record (push x s) { count = n; owner = o } in Place o s' → Valid s')
    push-Valid x n o e p = record {
      few = v.few;
      waiting = v.waiting;
      kept = λ w. omega (arith, v.kept w, sum-append w s.queue (x ∷ []));
      awaited = omega (arith, v.awaited, e, sum-append awaits s.queue (x ∷ []));
      place = p;
    }

    emplace-Valid :
        (o : Owner A)
        → s.threads + 1 < word
        → (let s' = record (emplace s) { owner = o } in Place o s' → Valid s')
    emplace-Valid o few p = record {
      few = few;
      waiting = omega (arith, v.waiting, total-new waits s.worker s.threads starting);
      kept = λ w. omega (arith, v.kept w, total-new (carried w) s.worker s.threads starting);
      awaited = omega (arith, v.awaited, total-new pending s.worker s.threads starting);
      place = p;
    }

    pub join-Valid :
        (seen : Bool)
        → s.owner ≡ joining seen
        → ((t : ℕ) → t < s.threads → s.worker t ≡ gone)
        → Valid (record s { threads = 0; owner = reopening seen })
    join-Valid seen e all = record {
      few = omega arith;
      waiting = v.waiting ∙ total-gone waits s.worker s.threads refl all;
      kept = λ w. omega (arith, v.kept w, total-gone (carried w) s.worker s.threads refl all);
      awaited = omega (arith, v.awaited, total-gone pending s.worker s.threads refl all);
      place = λ h. (((subst (λ o. Place o s) e v.place) h).0, refl);
    }

    pub purge_last-Valid :
        (l : List (Item A)) (x : Item A)
        → s.owner ≡ purging
        → s.queue ≡ l ++ x ∷ []
        → Valid (record s { queue = l; purged = x ∷ s.purged })
    purge_last-Valid l x e q = record {
      few = v.few;
      waiting = v.waiting;
      kept = λ w. omega (arith, v.kept w, ap (sum w) q, sum-append w l (x ∷ []));
      awaited = omega (arith, v.awaited, ap (sum awaits) q, sum-append awaits l (x ∷ []));
      place = subst (λ o. Place o (record s { queue = l; purged = x ∷ s.purged })) (sym e) tt;
    }

    -- All threads wait, so none has an item.
    gathered :
        (seen : Bool) → Drained seen s → (s.waiting_size == s.threads) ≡ true → Finished seen s
    gathered seen drained e h = (
      drained h,
      total_all waits holds s.worker s.threads one
          (sym v.waiting ∙ (==_iff s.waiting_size s.threads).0 e),
    )
      where
        one : (p : Worker A) → waits p + holds p ≤ 1
        one p = ground arith

    -- The next place of the owner depends on a test.
    branch-Valid :
        (b : Bool) (o o' : Owner A)
        → (b ≡ true → Place o (set_owner o s))
        → (b ≡ false → Place o' (set_owner o' s))
        → Valid (set_owner (if b then o else o') s)
    branch-Valid true o o' h h' = set_owner-Valid o (h refl)
    branch-Valid false o o' h h' = set_owner-Valid o' (h' refl)

    spawn_more-Valid :
        (concurrency left : ℕ) → s.threads + 1 < word → Valid (spawn_more concurrency left s)
    spawn_more-Valid concurrency zero few = set_owner-Valid (joining_in concurrency) tt
    spawn_more-Valid concurrency (suc left) few = emplace-Valid (spawning concurrency left) few tt

    parallelize-Valid : (l : List A) → Valid (parallelize l s)
    parallelize-Valid [] = set_owner-Valid awaiting tt
    parallelize-Valid (a ∷ l) =
        push-Valid (record { value = a; awaited = true }) (s.count + 1) (parallelizing l) refl tt

    after_wait-Place :
        (ends seen : Bool) (s' : Executor A) → Finished seen s' → Place (after_wait ends seen) s'
    after_wait-Place true seen s' f = f
    after_wait-Place false seen s' f = f

    empty-Drained : (q : List (Item A)) → empty q ≡ true → q ≡ []
    empty-Drained [] h = refl
    empty-Drained (x ∷ q) h = absurd (cc)

    pub owner_step-Valid :
        (o : Owner A) → s.owner ≡ o → s.threads + 1 < word → Valid (owner_step o s)
    unfolding owner_step
    owner_step-Valid o e few = from o (subst (λ o. Place o s) e v.place)
      where
        from : (o : Owner A) → Place o s → Valid (owner_step o s)
        from idle p = v
        from (spawning concurrency left) p = spawn_more-Valid concurrency left few
        from (joining_in concurrency) p =
            branch-Valid (s.waiting_size == concurrency) resuming (joining_in concurrency) (λ h. tt)
              (λ h. tt)
        from resuming p =
            with_flags-Valid unnotifying false s.shutdown s.should_notify s.done_spinlock
              s.cancelled tt
        from unnotifying p =
            with_flags-Valid idle s.pause s.shutdown false s.done_spinlock s.cancelled tt
        from closing p = branch-Valid s.shutdown idle (starting_wait true) (λ h. tt) (λ h. tt)
        from (starting_wait ends) p =
            with_flags-Valid (loading_pause ends) s.pause s.shutdown true s.done_spinlock
              s.cancelled tt
        from (loading_pause ends) p =
            branch-Valid s.pause (loading_working ends false) (loading_queue ends)
              (λ h h'. absurd (cc)) (λ h. tt)
        from (loading_queue ends) p =
            branch-Valid (empty s.queue) (loading_working ends true) (loading_pause ends)
              (λ h h'. empty-Drained s.queue h) (λ h. tt)
        from (loading_working ends seen) p =
            branch-Valid (s.working_size == 0) (confirming ends seen) (loading_pause ends) (λ h. p)
              (λ h. tt)
        from (confirming ends seen) p =
            with_flags-Valid (gathering ends seen) s.pause s.shutdown s.should_notify true
              s.cancelled p
        from (gathering ends seen) p =
            branch-Valid (s.waiting_size == s.threads) (resetting ends seen) (gathering ends seen)
              (λ h. gathered seen p h) (λ h. p)
        from (resetting ends seen) p =
            with_flags-Valid (after_wait ends seen) s.pause s.shutdown s.should_notify false
              s.cancelled (after_wait-Place ends seen _ p)
        from (waited seen) p = v
        from (regathering seen) p =
            branch-Valid (s.waiting_size == s.threads) (shutting seen) (regathering seen) (λ h. p)
              (λ h. p)
        from (shutting seen) p =
            with_flags-Valid (draining seen) s.pause true s.should_notify s.done_spinlock
              s.cancelled p
        from (draining seen) p =
            branch-Valid (s.initialized_size == 0) (joining seen) (draining seen) (λ h. p) (λ h. p)
        from (joining seen) p = v
        from (reopening seen) p =
            with_flags-Valid (shut seen) s.pause false s.should_notify s.done_spinlock s.cancelled p
        from (shut seen) p = v
        from (parallelizing l) p = parallelize-Valid l
        from awaiting p =
            branch-Valid (s.count == 0) released awaiting (λ h. (==_iff s.count 0).0 h) (λ h. tt)
        from released p = v
        from purging p = v
