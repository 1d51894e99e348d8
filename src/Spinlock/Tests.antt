-- ===== src/Spinlock/Tests.antt =====
-- Two threads that contend for the lock.
use godby.Prelude.{ℕ, ◌≡◌, refl, true, update}
use godby.Spinlock.{locking, Spinlock, start, access, lock, run, Reach, begin, next}
use godby.Spinlock.Exclusion.{one_holder}

abbrev both_call : Spinlock
both_call = record start { thread = update (update start.thread 0 locking) 1 locking }

abbrev contended : Spinlock
contended = access 1 (both_call.thread 1) (access 0 (both_call.thread 0) both_call)

contended-Reach : Reach contended
unfolding access
contended-Reach = next (next (next (next begin (lock 0 refl)) (lock 1 refl)) (run 0)) (run 1)

one_holder_example : ◌≡◌ {A = ℕ} 0 0 × (contended.locked ≡ true)
unfolding access
one_holder_example = one_holder contended-Reach 0 0 refl refl

second_waits : contended.thread 1 ≡ locking
unfolding access
second_waits = refl
