-- ===== src/StealingExecutor/Takes.antt =====
-- A consumer thread that takes an item off the queue, or finds none, keeps the invariant.
use godby.Prelude.{
  ℕ, ◌+◌, ◌<◌, ◌≡◌, refl, sym, ◌∙◌, ap, Bool, true, false, List, [], ◌∷◌, arith, update, ◌==◌,
  if◌then◌else◌,
}
use godby.StealingExecutor.Consumer.{Item, Worker, stealing, stolen, deciding, leaving, suspending}
use godby.StealingExecutor.Totals.{sum, awaits, carried, pending, waits}
use godby.StealingExecutor.State.{Executor, set_worker}
use godby.StealingExecutor.Valid.{Valid}
use godby.StealingExecutor.Effects.{goes, branches-Valid}

module _ {A : Type 0} where
  module _ (t : ℕ) (s : Executor A) (low : t < s.threads) (v : Valid s) where
    -- An item leaves the queue for the thread.
    pub steal-Valid :
        (nth : ℕ) (x : Item A) (l : List (Item A))
        → s.worker t ≡ stealing nth
        → s.queue ≡ x ∷ l
        → Valid (record s {
          queue = l;
          worker = update s.worker t (if nth == 0 then stolen x else deciding (nth + 1) x);
        })
    steal-Valid nth x l e q =
        goes t s low v (stealing nth) (takes (nth == 0))
          (record s { queue = l; worker = update s.worker t (takes (nth == 0)) }) e refl refl refl
          refl refl
          (record {
            waiting = λ h h'. omega (arith, (facts (nth == 0)).0);
            kept = λ w. omega (arith, ap (sum w) q, (facts (nth == 0)).1 w);
            awaited = λ h. omega (arith, ap (sum awaits) q, (facts (nth == 0)).2);
            queue = λ h. absurd (full (sym q ∙ h));
            held = λ h. absurd (full (sym q ∙ h));
            count = λ h. h;
          })
      where
        takes : Bool → Worker A
        takes b = if b then stolen x else deciding (nth + 1) x

        facts :
            (b : Bool)
            → (waits (takes b) ≡ 0)
              × ((w : Item A → ℕ) → carried w (takes b) ≡ w x)
              × (pending (takes b) ≡ awaits x)
        facts true = (refl, λ w. refl, refl)
        facts false = (refl, λ w. refl, refl)

        full : x ∷ l ≡ [] → ⊥
        full h = cc

    pub miss-Valid :
        (nth : ℕ)
        → s.worker t ≡ stealing nth
        → Valid (set_worker t (if nth == 0 then suspending else leaving) s)
    miss-Valid nth e =
        branches-Valid t s low v (nth == 0) (stealing nth) suspending leaving e
          (refl, λ w. refl, refl) (refl, λ w. refl, refl)
