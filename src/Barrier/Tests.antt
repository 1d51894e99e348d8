-- ===== src/Barrier/Tests.antt =====
-- Two threads that wait, and one that releases two.
use godby.Prelude.{ℕ, ◌≡◌, ◌≤◌, refl, arith}
use godby.Barrier.{
  Barrier, passed, counting, done, arriving, start, set_waiter, wait_step, release_step, wait,
  release, run_wait, run_release, Reach, begin, next,
}
use godby.Barrier.Gate.{passed_after}

abbrev called : Barrier
called = record (set_waiter (set_waiter start 0 arriving) 1 arriving) { releaser = counting 2 }

abbrev go : ℕ → Barrier → Barrier
go t s = wait_step t (s.waiter t) s

abbrev let_go : Barrier → Barrier
let_go s = release_step s.releaser s

-- Thread 0 looks once too early.
abbrev left : Barrier
left = go 0 (let_go (let_go (go 1 (go 0 (go 0 called)))))

left-Reach : Reach left
unfolding wait_step release_step
left-Reach =
    next
      (next
        (next
          (next
            (next
              (next (next (next (next begin (wait 0 refl)) (wait 1 refl)) (release 2 refl))
                (run_wait 0 (omega arith)))
              (run_wait 0 (omega arith)))
            (run_wait 1 (omega arith)))
          run_release)
        run_release)
      (run_wait 0 (omega arith))

left-passed : left.waiter 0 ≡ passed
unfolding wait_step release_step
left-passed = refl

passed_after_example : (expected : ℕ) × (left.releaser ≡ done expected) × (expected ≤ left.arrived)
passed_after_example = passed_after left-Reach 0 left-passed
