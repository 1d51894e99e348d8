-- ===== src/AtomicQueue/Tests.antt =====
-- Two items handed over, with two pushing threads and a popping one.
use godby.Prelude.{ℕ, ◌≤◌, ◌↔◌, none, some, arith, ◌≡◌, refl, true, [], ◌∷◌, ◌++◌}
use godby.AtomicQueue.{
  pushing, popping, Slot, set_worker, access, push, pop, run, start, Reach, begin, next, held,
}
use godby.AtomicQueue.Indices.{was_size, was_empty, was_full, try_push, try_pop, after, try_lem}
use godby.AtomicQueue.Handover.{busy, handover}

abbrev go : ℕ → Slot ℕ → Slot ℕ
go t s = access t (s.worker t) s

-- Threads 0 and 1 push 7 and 8, thread 2 pops; thread 1 fails at first.
abbrev called : Slot ℕ
called = set_worker (set_worker (set_worker (start 0) 0 (pushing 7)) 1 (pushing 8)) 2 popping

abbrev handed : Slot ℕ
handed = go 1 (go 1 (go 1 (go 2 (go 2 (go 2 (go 0 (go 0 (go 1 (go 0 called)))))))))

called-Reach : Reach 0 called
called-Reach = next (next (next begin (push 0 7 refl)) (push 1 8 refl)) (pop 2 refl)

handed-Reach : Reach 0 handed
unfolding access
handed-Reach =
    next
      (next
        (next
          (next
            (next
              (next (next (next (next (next called-Reach (run 0)) (run 1)) (run 0)) (run 0))
                (run 2))
              (run 2))
            (run 2))
          (run 1))
        (run 1))
      (run 1)

handed-popped : handed.popped ≡ 7 ∷ []
unfolding access
handed-popped = refl

handover_example :
    (handed.pushed ≡ held handed.state handed.element ++ handed.popped)
    × ((t u : ℕ) → busy (handed.worker t) ≡ true → busy (handed.worker u) ≡ true → t ≡ u)
handover_example = handover handed-Reach

-- 2 ^ 32 + 3 pushes and 2 ^ 32 - 1 pops: the head has wrapped around, the tail has not.
try_lem_example :
    (try_push 4 (after 4294967299 4294967295) ≡ (none, after 4294967299 4294967295))
    × (try_pop (after 4294967299 4294967295) ≡ (some 4294967295, after 4294967299 4294967296))
    × (was_size (after 4294967299 4294967295) ≡ 4)
    × ((was_empty (after 4294967299 4294967295) ≡ true) ↔ (4294967299 ≤ 4294967295))
    × ((was_full 4 (after 4294967299 4294967295) ≡ true) ↔ (4 ≤ 4))
try_lem_example =
    try_lem 4294967299 4294967295 (omega arith) (omega arith) 4 (omega arith) (omega arith)
