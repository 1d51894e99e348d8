-- ===== src/StealingQueue/Threads/Steal.antt =====
-- A thief's steps keep the invariant.
use godby.Prelude.{
  ℕ, ◌+◌, ◌≤◌, ◌<◌, ◌≡◌, ◌≢◌, refl, sym, ◌∙◌, ap, some, List, ◌∷◌, arith, update, ℕ_discrete, ltb,
  ◌==◌, Bool-cases, inl, inr, ltb→lt, get_or,
}
use godby.StealingQueue.{StealingQueue, cas_top}
use godby.StealingQueue.Slots.{add_size, slot_load}
use godby.StealingQueue.Threads.{
  Owner, pushing, placing, publishing, popping, restoring, Thief, got_top, got_bottom, reading, age,
  array_of_age, silent, answer, thief_step, after_thief,
}
use godby.StealingQueue.Threads.Invariant.{
  end_of, OwnerAt, ThiefAt, Inv, Frame-ThiefAt, Frame-indices,
}
use godby.StealingQueue.Threads.Moved.{rest_front, at}

module _ {A : Type 0} (d : A) where
  end_of-top :
      (q : StealingQueue A) (t : ℕ) (o : Owner A) → end_of (record q { top = t }) o ≡ end_of q o
  end_of-top q t (popping b) = refl
  end_of-top q t (Owner.racing b x) = refl
  end_of-top q t (restoring b r) = refl
  end_of-top q t _ = refl

  bottom-le-end_of :
      (k : ℕ) (q : StealingQueue A) (o : Owner A) → OwnerAt d k q o → q.bottom ≤ end_of q o
  bottom-le-end_of k q (popping b) h = omega arith
  bottom-le-end_of k q (Owner.racing b x) h = omega (arith, h.0)
  bottom-le-end_of k q (restoring b r) h = omega (arith, h.0)
  bottom-le-end_of k q (pushing x t) h = omega arith
  bottom-le-end_of k q (placing x) h = omega arith
  bottom-le-end_of k q (publishing x) h = omega arith
  bottom-le-end_of k q Owner.idle h = omega arith

  -- A thief that takes the oldest item leaves what the owner knows true.
  OwnerAt-steal :
      (k : ℕ) (q : StealingQueue A) (o : Owner A)
      → OwnerAt d k q o
      → q.top < end_of q o
      → OwnerAt d k (record q { top = q.top + 1 }) o
  OwnerAt-steal k q (popping b) h lt = h
  OwnerAt-steal k q (Owner.racing b x) h lt = (h.0, h.1, omega (arith, h.2))
  OwnerAt-steal k q (restoring b r) h lt = absurd (omega (arith, h.1))
  OwnerAt-steal k q (pushing x t) h lt = (omega (arith, h.0), h.1, h.2)
  OwnerAt-steal k q (placing x) h lt = (omega (arith, h.0), h.1)
  OwnerAt-steal k q (publishing x) h lt = (omega (arith, h.0), h.1, h.2)
  OwnerAt-steal k q Owner.idle h lt = tt

  ThiefAt-update :
      (th : ℕ → Thief A) (q : StealingQueue A) (e i : ℕ) (p : Thief A)
      → ((j : ℕ) → ThiefAt d q e (th j))
      → ThiefAt d q e p
      → (j : ℕ) → ThiefAt d q e (update th i p j)
  ThiefAt-update th q e i p h own j = elim (Bool-cases (i == j)) [
    | inl same ↦ rw same own
    | inr other ↦ rw other (h j)
  ]

  steal_won :
      (q : StealingQueue A) (t : ℕ) (x : A)
      → q.top ≡ t
      → thief_step d q (Thief.racing t x)
        ≡ answer (record q { top = add_size t 1 }) Thief.idle (some x)
  unfolding thief_step cas_top
  steal_won q t x e = ground arith

  steal_lost :
      (q : StealingQueue A) (t : ℕ) (x : A)
      → q.top ≢ t
      → thief_step d q (Thief.racing t x) ≡ silent q Thief.idle
  unfolding thief_step cas_top
  steal_lost q t x ne = ground arith

  module _ (w : A → ℕ) (th : ℕ → Thief A) (ps rs : List A) (q : StealingQueue A) (o : Owner A)
      (i : ℕ) (v : Inv d w (at th ps rs q o)) where
    quiet :
        (p : Thief A)
        → ThiefAt d q (end_of q o) p
        → Inv d w (after_thief (at th ps rs q o) i (silent q p))
    unfolding at
    quiet p own = record {
      level = v.level;
      array = v.array;
      room = v.room;
      ordered = v.ordered;
      fits = v.fits;
      small = v.small;
      at_owner = v.at_owner;
      at_thief = ThiefAt-update th q (end_of q o) i p v.at_thief own;
      kept = v.kept;
    }

    taken :
        (x : A)
        → q.top < end_of q o
        → x ≡ slot_load d q.array q.top
        → Inv d w (
            after_thief
              (at th ps rs q o)
              i
              (answer (record q { top = q.top + 1 }) Thief.idle (some x)))
    unfolding at
    taken x lt same = record {
      level = v.level;
      array = v.array;
      room = v.room;
      ordered = rw end (omega arith);
      fits = rw end (omega (arith, v.fits));
      small = rw end v.small;
      at_owner = OwnerAt-steal v.level q o v.at_owner lt;
      at_thief =
          ThiefAt-update th q' (end_of q' o) i Thief.idle
            (λ j.
              Frame-ThiefAt d
                (Frame-indices d q (q.top + 1) q.bottom (end_of q o) (end_of q' o) (omega arith)
                  (λ e h. absurd (omega arith)))
                (th j) (v.at_thief j))
            tt;
      kept = rw end (omega (arith, v.kept, rest_front d w q (end_of q o) q.bottom lt, ap w same));
    }
      where
        q' : StealingQueue A
        q' = record q { top = q.top + 1 }

        end : end_of q' o ≡ end_of q o
        end = end_of-top q (q.top + 1) o

    newest : (t : ℕ) → slot_load d (array_of_age q (age q)) t ≡ slot_load d q.array t
    newest t =
        ap (λ n. slot_load d (get_or (q.array ∷ q.garbage) n q.array) t) {y = 0} (omega arith)

    steal_race :
        (t : ℕ) (x : A)
        → ThiefAt d q (end_of q o) (Thief.racing t x)
        → Inv d w (after_thief (at th ps rs q o) i (thief_step d q (Thief.racing t x)))
    unfolding at
    steal_race t x h = elim (ℕ_discrete q.top t) [
      | yes e ↦
          rw (steal_won q t x e, next e)
            (taken x (omega (arith, h.1 e)) (h.2 e ∙ ap (slot_load d q.array) (sym e)))
      | no ne ↦ rw (steal_lost q t x ne) (quiet Thief.idle tt)
    ]
      where
        next : q.top ≡ t → add_size t 1 ≡ q.top + 1
        next e = omega (arith, h.1 e, v.small)

    pub step_thief :
        (p : Thief A)
        → ThiefAt d q (end_of q o) p
        → Inv d w (after_thief (at th ps rs q o) i (thief_step d q p))
    unfolding at thief_step
    step_thief Thief.idle h = quiet (got_top q.top) (omega arith)
    step_thief (got_top t) h = elim (Bool-cases (ltb t q.bottom)) [
      | inl lt ↦ rw lt (
          quiet (got_bottom t)
            (h, λ e. omega (arith, ltb→lt t q.bottom lt, bottom-le-end_of v.level q o v.at_owner)))
      | inr ge ↦ rw ge (quiet Thief.idle tt)
    ]
    step_thief (got_bottom t) h = quiet (reading t (age q)) (h.0, h.1, omega arith, λ e. newest t)
    step_thief (reading t g) h =
        quiet (Thief.racing t (slot_load d (array_of_age q g) t)) (h.0, h.1, h.3)
    step_thief (Thief.racing t x) h = steal_race t x h
