-- ===== src/AtomicQueue/AtomicTests.antt =====
-- An element of AtomicQueue: two items, with SPSC by the threads 0 and 1, and else by more.
use godby.Prelude.{ℕ, ◌≡◌, refl, Bool, true, false, some, [], ◌∷◌, ◌++◌}
use godby.AtomicQueue.Atomic.{
  pushing, popping, Element, set_worker, access, push, pop, run, start, Reach, begin, next, held,
}
use godby.AtomicQueue.AtomicHandover.{atomic_handover}

abbrev go : Bool → ℕ → Element ℕ → Element ℕ
go spsc t s = access spsc t (s.worker t) s

-- Thread 0 pushes 7 and thread 1 pops it.
abbrev called : Element ℕ
called = set_worker (set_worker start 0 (pushing 7)) 1 popping

abbrev handed : Element ℕ
handed = go true 1 (go true 1 (go true 0 (go true 1 (go true 0 called))))

handed-Reach : Reach true handed
handed-Reach =
    next
      (next
        (next
          (next
            (next (next (next begin (push 0 7 refl (λ h. refl))) (pop 1 refl (λ h. refl))) (run 0))
            (run 1))
          (run 0))
        (run 1))
      (run 1)

handed-popped : handed.popped ≡ 7 ∷ []
unfolding access
handed-popped = refl

atomic_handover_example : handed.pushed ≡ held handed.value ++ handed.popped
atomic_handover_example = atomic_handover true handed-Reach

-- Without SPSC the thread 2 finds no value, and the thread 0 another one.
abbrev many : Element ℕ
many = go false 0 (
    go false 1 (
      go false 2
        (set_worker (set_worker (set_worker start 0 (pushing 7)) 1 (pushing 8)) 2 popping)))

many-value : many.value ≡ some 8
unfolding access
many-value = refl
