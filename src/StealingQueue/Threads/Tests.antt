-- ===== src/StealingQueue/Threads/Tests.antt =====
-- Interleavings by evaluation, and the theorems on threads at concrete inputs.
use godby.Prelude.{ℕ, ◌+◌, ◌≡◌, refl, [], ◌∷◌, arith}
use godby.StealingQueue.{is_full, cas_top}
use godby.StealingQueue.Refine.{contents}
use godby.StealingQueue.Slots.{slot_load, slot_store, new_array}
use godby.StealingQueue.Threads.{
  System, Reach, start_push, start_pop, owner, thief, here, next, owner_step, thief_step,
}
use godby.StealingQueue.Threads.Invariant.{sum_of}
use godby.StealingQueue.Threads.Safety.{initial, no_item_lost}

-- The owner pushes 7 and pops while thief 0 steals: both go for the last item, and the thief wins.
abbrev contended : (s : System ℕ) × Reach 0 (initial 0 2) s
unfolding owner_step thief_step slot_load slot_store new_array is_full cas_top
contended = (
  _,
  next
      (next
        (next
          (next
            (next
              (next
                (next
                  (next
                    (next
                      (next (next (next (next here (start_push 7 refl (omega arith))) owner) owner)
                        owner)
                      (thief 0))
                    (thief 0))
                  (thief 0))
                (thief 0))
              (start_pop refl (omega arith)))
            owner)
          (thief 0))
        owner)
      owner,
)

contended_result : (contended.0.returned ≡ 7 ∷ []) × (contended.0.queue.top ≡ 1)
unfolding owner_step thief_step slot_load slot_store new_array is_full cas_top
contended_result = (refl, refl)

no_item_lost_example :
    sum_of (λ x. x) contended.0.pushed
    ≡ sum_of (λ x. x) contended.0.returned + sum_of (λ x. x) (contents 0 contended.0.queue)
unfolding owner_step thief_step slot_load slot_store new_array is_full cas_top
no_item_lost_example = no_item_lost 0 1 (λ x. x) (omega arith) contended.1 refl
