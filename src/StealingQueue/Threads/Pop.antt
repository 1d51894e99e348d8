-- ===== src/StealingQueue/Threads/Pop.antt =====
-- The owner's steps in `pop` keep the invariant.
use godby.Prelude.{
  ℕ, ◌+◌, ◌<◌, ◌≡◌, refl, ap, Option, none, some, List, ◌∷◌, arith, ℕ_discrete, ◌≢◌, ◌⊎◌, inl, inr,
}
use godby.StealingQueue.{StealingQueue, cas_top}
use godby.StealingQueue.Slots.{add_size, slot_load}
use godby.StealingQueue.Threads.{
  Owner, popping, restoring, Thief, silent, answer, owner_step, after_owner,
}
use godby.StealingQueue.Threads.Invariant.{sum_of, Inv}
use godby.StealingQueue.Threads.Moved.{rest, rest_back, rest-nil, at, moved}

module _ {A : Type 0} (d : A) (w : A → ℕ) where
  -- The branches of `pop` after the load of the top, and of its compare-exchange.
  pop_race :
      (q : StealingQueue A) (b : ℕ)
      → q.top ≡ b
      → owner_step d q (popping b) ≡ silent q (Owner.racing b (slot_load d q.array b))
  unfolding owner_step
  pop_race q b e = ground arith

  pop_take :
      (q : StealingQueue A) (b : ℕ)
      → q.top < b
      → owner_step d q (popping b) ≡ answer q Owner.idle (some (slot_load d q.array b))
  unfolding owner_step
  pop_take q b lt = ground arith

  pop_late :
      (q : StealingQueue A) (b : ℕ)
      → b < q.top
      → owner_step d q (popping b) ≡ silent q (restoring b none)
  unfolding owner_step
  pop_late q b gt = ground arith

  race_won :
      (q : StealingQueue A) (b : ℕ) (x : A)
      → q.top ≡ b
      → owner_step d q (Owner.racing b x)
        ≡ silent (record q { top = add_size b 1 }) (restoring b (some x))
  unfolding owner_step cas_top
  race_won q b x e = ground arith

  race_lost :
      (q : StealingQueue A) (b : ℕ) (x : A)
      → q.top ≢ b
      → owner_step d q (Owner.racing b x) ≡ silent q (restoring b none)
  unfolding owner_step cas_top
  race_lost q b x ne = ground arith

  module _ (th : ℕ → Thief A) (ps rs : List A) where
    pub step_popping :
        (q : StealingQueue A) (b : ℕ)
        → Inv d w (at th ps rs q (popping b))
        → Inv d w (after_owner (at th ps rs q (popping b)) (owner_step d q (popping b)))
    unfolding at
    step_popping q b v = elim (cases q.top b) [
      | inl e ↦ rw (pop_race q b e) (
          moved d w th ps rs q (popping b) (Owner.racing b (slot_load d q.array b)) q.top q.bottom
            ps rs v v.ordered (omega (arith, v.fits)) v.small (v.at_owner, refl, omega arith)
            (omega arith) (λ _ h. h) v.kept)
      | inr (inl lt) ↦ rw (pop_take q b lt) (
          moved d w th ps rs q (popping b) Owner.idle q.top q.bottom ps (slot_load d q.array b ∷ rs)
            v (omega arith) (omega (arith, v.fits)) (omega (arith, v.small)) tt (omega arith)
            (λ _ h. omega arith)
            (omega (arith, v.kept, rest_back d w q b (omega arith), ap (rest d w q) v.at_owner)))
      | inr (inr gt) ↦ rw (pop_late q b gt) (
          moved d w th ps rs q (popping b) (restoring b none) q.top q.bottom ps rs v v.ordered
            (omega (arith, v.fits)) v.small (v.at_owner, omega (arith, v.ordered)) (omega arith)
            (λ _ h. h) v.kept)
    ]
      where
        cases : (t b : ℕ) → (t ≡ b) ⊎ (t < b) ⊎ (b < t)
        cases t b = omega arith

    pub step_racing :
        (q : StealingQueue A) (b : ℕ) (x : A)
        → Inv d w (at th ps rs q (Owner.racing b x))
        → Inv d w
            (after_owner (at th ps rs q (Owner.racing b x)) (owner_step d q (Owner.racing b x)))
    unfolding at
    step_racing q b x v = elim (ℕ_discrete q.top b) [
      | yes e ↦
          rw (race_won q b x e, next)
            (moved d w th ps rs q (Owner.racing b x) (restoring b (some x)) (b + 1) q.bottom ps rs v
              (omega arith) (omega arith) v.small (v.at_owner.0, refl) (omega arith)
              (λ r h. absurd (omega arith)) (won e))
      | no ne ↦ rw (race_lost q b x ne) (
          moved d w th ps rs q (Owner.racing b x) (restoring b none) q.top q.bottom ps rs v
            v.ordered (omega (arith, v.fits)) v.small
            (v.at_owner.0, omega (arith, v.ordered, v.at_owner.2)) (omega arith) (λ _ h. h) v.kept)
    ]
      where
        next : add_size b 1 ≡ b + 1
        next = omega (arith, v.small)

        won :
            q.top ≡ b
            → sum_of w ps
              ≡ sum_of w rs + w x + rest d w (record q { top = b + 1; bottom = q.bottom }) (b + 1)
        won e = omega (
          arith,
          v.kept,
          rest_back d w q b (omega arith),
          rest-nil d w q b (omega arith),
          rest-nil d w (record q { top = b + 1; bottom = q.bottom }) (b + 1) refl,
          ap w v.at_owner.1,
        )

    pub step_restoring :
        (q : StealingQueue A) (b : ℕ) (r : Option A)
        → Inv d w (at th ps rs q (restoring b r))
        → Inv d w (after_owner (at th ps rs q (restoring b r)) (owner_step d q (restoring b r)))
    unfolding at owner_step
    step_restoring q b none v =
        moved d w th ps rs q (restoring b none) Owner.idle q.top (add_size b 1) ps rs v
          (omega arith) (omega arith) (omega arith) tt (omega arith) (λ e h. omega arith)
          (omega (arith, v.kept, ap (rest d w q) next))
      where
        next : add_size b 1 ≡ b + 1
        next = omega (arith, v.small)
    step_restoring q b (some x) v =
        moved d w th ps rs q (restoring b (some x)) Owner.idle q.top (add_size b 1) ps (x ∷ rs) v
          (omega arith) (omega arith) (omega arith) tt (omega arith) (λ e h. omega arith)
          (omega (arith, v.kept, ap (rest d w q) next))
      where
        next : add_size b 1 ≡ b + 1
        next = omega (arith, v.small)
