-- ===== src/StealingExecutor/Create.antt =====
-- The queue that the constructor of an executor makes.
use native.Mathlib.Nat.{pow-le-pow_right}
use godby.Prelude.{ℕ, ◌^◌, ◌≤◌, ◌<◌, ◌≡◌, sym, ◌∙◌, Option, some, [], arith, inl, inr}
use godby.Math.{next_power_of_two}
use godby.Math.Bit.{next_power_of_two_lem}
use godby.StealingQueue
use godby.StealingQueue.{StealingQueue}
use godby.StealingQueue.Slots.{word}
use godby.StealingQueue.Refine.{IsValid, contents}
use godby.StealingQueue.Create.{create_lem}

-- `M_queue(godby::NextPowerOfTwo(queue_capacity))`.
unfoldable pub create_queue : {A : Type 0} → A → ℕ → Option (StealingQueue A)
create_queue d queue_capacity = StealingQueue.create d (next_power_of_two queue_capacity)

-- For every capacity up to 2 ^ 63, 0 included: the constructor of the queue accepts the number of slots that
-- the executor's constructor asks for, which is the least power of two that is the capacity or more, and the queue is
-- valid and has no items.
pub create_queue_lem :
    {A : Type 0} (d : A) (queue_capacity : ℕ)
    → queue_capacity ≤ 2 ^ 63
    → (k : ℕ) × (q : StealingQueue A) × (create_queue d queue_capacity ≡ some q)
      × IsValid k q
      × (contents d q ≡ [])
      × (next_power_of_two queue_capacity ≡ 2 ^ k)
      × (queue_capacity ≤ 2 ^ k)
      × ((i : ℕ) → queue_capacity ≤ 2 ^ i → 2 ^ k ≤ 2 ^ i)
unfolding create_queue
create_queue_lem d n fits = elim (create_lem d (next_power_of_two n) small) [
  | inl (none, odd) ↦ absurd (odd j e)
  | inr (k, q, two, made, valid, nothing) ↦ (
    k,
    q,
    made,
    valid,
    nothing,
    two,
    omega (arith, sym two ∙ e, enough),
    λ i h. omega (arith, sym two ∙ e, pow-le-pow_right {n = 2} (omega arith) (least i h)),
  )
]
  where
    j : ℕ
    j = (next_power_of_two_lem n fits).0

    e : next_power_of_two n ≡ 2 ^ j
    e = (next_power_of_two_lem n fits).1

    enough : n ≤ 2 ^ j
    enough = (next_power_of_two_lem n fits).2

    least : (i : ℕ) → n ≤ 2 ^ i → j ≤ i
    least = (next_power_of_two_lem n fits).3

    small : next_power_of_two n < word
    small = omega (arith, e, pow-le-pow_right {n = 2} (omega arith) (least 63 fits))
