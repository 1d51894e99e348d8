-- ===== src/StealingExecutor/Workers.antt =====
-- Each access of a consumer thread keeps the invariant.
use godby.Prelude.{ℕ, ◌<◌, ◌≡◌, refl, Bool, true, false, not, ◌&&◌, arith, ◌==◌, if◌then◌else◌}
use godby.StealingExecutor.Consumer.{
  Config, Item, Worker, absent, starting, entering, testing, waking, looking, stealing, stolen,
  deciding, consuming, cleaning, signalling, limiting, leaving, suspending, counting, notifying,
  tearing, gone, after_item, go_on, must_break,
}
use godby.StealingExecutor.Totals.{carried, pending, waits}
use godby.StealingExecutor.State.{Executor, empty}
use godby.StealingExecutor.{worker_step}
use godby.StealingExecutor.Valid.{Valid}
use godby.StealingExecutor.Effects.{Same, Same-Effect, after_item_lem, goes, branches-Valid}

module _ {A : Type 0} where
  module _ (c : Config) (t : ℕ) (s : Executor A) (low : t < s.threads) (v : Valid s) where
    pub worker_step-Valid : (p : Worker A) → s.worker t ≡ p → Valid (worker_step c t p s)
    unfolding worker_step
    worker_step-Valid absent e = v
    worker_step-Valid starting e =
        goes t s low v starting entering (worker_step c t starting s) e refl refl refl refl refl (
          Same-Effect starting entering s (worker_step c t starting s) refl refl refl refl refl
            (refl, λ w. refl, refl))
    worker_step-Valid entering e =
        goes t s low v entering testing (worker_step c t entering s) e refl refl refl refl refl
          (record {
            waiting = λ h h'. omega (arith, h');
            kept = λ w. refl;
            awaited = λ h. refl;
            queue = λ h. h;
            held = λ h. omega arith;
            count = λ h. h;
          })
    worker_step-Valid testing e =
        branches-Valid t s low v (empty s.queue && not s.shutdown) testing testing waking e
          (refl, λ w. refl, refl) (refl, λ w. refl, refl)
    worker_step-Valid waking e =
        goes t s low v waking looking (worker_step c t waking s) e refl refl refl refl refl
          (record {
            waiting = λ h h'. omega (arith, h, h');
            kept = λ w. refl;
            awaited = λ h. refl;
            queue = λ h. h;
            held = λ h. omega arith;
            count = λ h. h;
          })
    worker_step-Valid looking e =
        branches-Valid t s low v s.shutdown looking tearing (stealing 0) e (refl, λ w. refl, refl)
          (refl, λ w. refl, refl)
    worker_step-Valid (stealing nth) e = v
    worker_step-Valid (stolen x) e =
        goes t s low v (stolen x) (deciding 1 x) (worker_step c t (stolen x) s) e refl refl refl
          refl refl
          (Same-Effect (stolen x) (deciding 1 x) s (worker_step c t (stolen x) s) refl refl refl
            refl refl (refl, λ w. refl, refl))
    worker_step-Valid (deciding nth x) e =
        branches-Valid t s low v s.cancelled (deciding nth x) (cleaning nth x) (consuming nth x) e
          (refl, λ w. refl, refl) (refl, λ w. refl, refl)
    worker_step-Valid (consuming nth x) e =
        goes t s low v (consuming nth x) (after_item nth (not (nth == 1)) x.awaited)
          (worker_step c t (consuming nth x) s) e refl refl refl refl refl
          (record {
            waiting = λ h h'. omega (arith, after.0);
            kept = λ w. omega (arith, after.1 w);
            awaited = λ h. omega (arith, after.2);
            queue = λ h. h;
            held = λ h. omega (arith, after.1 (λ x. 1));
            count = λ h. h;
          })
      where
        after :
            (waits (after_item {A = A} nth (not (nth == 1)) x.awaited) ≡ 0)
            × ((w : Item A → ℕ) → carried w (after_item nth (not (nth == 1)) x.awaited) ≡ 0)
            × (pending (after_item {A = A} nth (not (nth == 1)) x.awaited)
                ≡ (if x.awaited then 1 else 0))
        after = after_item_lem nth (not (nth == 1)) x.awaited
    worker_step-Valid (cleaning nth x) e =
        goes t s low v (cleaning nth x) (after_item nth false x.awaited)
          (worker_step c t (cleaning nth x) s) e refl refl refl refl refl
          (record {
            waiting = λ h h'. omega (arith, after.0);
            kept = λ w. omega (arith, after.1 w);
            awaited = λ h. omega (arith, after.2);
            queue = λ h. h;
            held = λ h. omega (arith, after.1 (λ x. 1));
            count = λ h. h;
          })
      where
        after :
            (waits (after_item {A = A} nth false x.awaited) ≡ 0)
            × ((w : Item A → ℕ) → carried w (after_item nth false x.awaited) ≡ 0)
            × (pending (after_item {A = A} nth false x.awaited) ≡ (if x.awaited then 1 else 0))
        after = after_item_lem nth false x.awaited
    worker_step-Valid (signalling nth checks) e =
        goes t s low v (signalling nth checks) (go_on nth checks)
          (worker_step c t (signalling nth checks) s) e refl refl refl refl refl
          (record {
            waiting = λ h h'. omega (arith, (on checks).0);
            kept = λ w. omega (arith, (on checks).1 w);
            awaited = λ h. omega (arith, h, (on checks).2);
            queue = λ h. h;
            held = λ h. omega (arith, (on checks).1 (λ x. 1));
            count = λ h. omega (arith, h);
          })
      where
        on : (b : Bool) → Same {A = A} absent (go_on nth b)
        on true = (refl, λ w. refl, refl)
        on false = (refl, λ w. refl, refl)
    worker_step-Valid (limiting nth) e =
        branches-Valid t s low v (must_break c s.pause t nth) (limiting nth) leaving (stealing nth)
          e (refl, λ w. refl, refl) (refl, λ w. refl, refl)
    worker_step-Valid leaving e =
        goes t s low v leaving suspending (worker_step c t leaving s) e refl refl refl refl refl (
          Same-Effect leaving suspending s (worker_step c t leaving s) refl refl refl refl refl
            (refl, λ w. refl, refl))
    worker_step-Valid suspending e =
        branches-Valid t s low v (empty s.queue) suspending counting entering e
          (refl, λ w. refl, refl) (refl, λ w. refl, refl)
    worker_step-Valid counting e =
        branches-Valid t s low v (s.working_size == 0) counting notifying entering e
          (refl, λ w. refl, refl) (refl, λ w. refl, refl)
    worker_step-Valid notifying e =
        branches-Valid t s low v notifies notifying notifying entering e (refl, λ w. refl, refl)
          (refl, λ w. refl, refl)
      where
        notifies : Bool
        notifies =
            s.should_notify && (not s.done_spinlock && (s.working_size == 0 && empty s.queue))
    worker_step-Valid tearing e =
        goes t s low v tearing gone (worker_step c t tearing s) e refl refl refl refl refl (
          Same-Effect tearing gone s (worker_step c t tearing s) refl refl refl refl refl
            (refl, λ w. refl, refl))
    worker_step-Valid gone e = v
