-- ===== src/StealingQueue/Threads/Alone.antt =====
-- A call whose steps no other thread interrupts is the operation of `StealingQueue`.
use godby.Prelude.{ℕ, zero, suc, ◌≡◌, ◌++◌, arith, Option, none, some, List, [], ◌∷◌}
use godby.StealingQueue.{StealingQueue, push, pop, steal, cas_top}
use godby.StealingQueue.Slots.{sub_size}
use godby.StealingQueue.Threads.{Owner, pushing, popping, Thief, owner_step, thief_step}

module _ {A : Type 0} (d : A) where
  -- Up to five further steps of a call, and what it returns.
  pub owner_run : ℕ → StealingQueue A → Owner A → List A → StealingQueue A × Owner A × List A
  owner_run zero q p out = (q, p, out)
  owner_run (suc n) q p out =
      let o = owner_step d q p in owner_run n o.memory o.next (o.returned ++ out)

  pub thief_run : ℕ → StealingQueue A → Thief A → List A → StealingQueue A × Thief A × List A
  thief_run zero q p out = (q, p, out)
  thief_run (suc n) q p out =
      let o = thief_step d q p in
      elim o.next [
        | Thief.idle ↦ (o.memory, o.next, o.returned ++ out)
        | _ ↦ thief_run n o.memory o.next (o.returned ++ out)
      ]

  abbrev pub to_list : Option A → List A
  to_list none = []
  to_list (some x) = x ∷ []

  -- Three steps of the owner, from the load of the top on, are `push`.
  push_alone :
      (q : StealingQueue A) (x : A)
      → owner_run 3 q (pushing x q.top) [] ≡ (push d q x, Owner.idle, [])
  unfolding owner_run owner_step push
  push_alone q x = ground arith

  -- The owner's steps after it has lowered the bottom are the rest of `pop`, and return its item.
  pop_alone :
      (q : StealingQueue A)
      → let b = sub_size q.bottom 1 in
        let (r, q') = pop d q in
        owner_run 3 (record q { bottom = b }) (popping b) [] ≡ (q', Owner.idle, to_list r)
  unfolding owner_run owner_step pop
  pop_alone q = ground arith

  -- At most five steps of a thief are `steal`, and return its item.
  steal_alone :
      (q : StealingQueue A)
      → let (r, q') = steal d q in thief_run 5 q Thief.idle [] ≡ (q', Thief.idle, to_list r)
  unfolding thief_run thief_step steal cas_top
  steal_alone q = ground arith

  -- Calls that no other thread interrupts are those of the queue: three steps of the owner, from the load of the
  -- top on, are push; its steps after it has lowered the bottom are the rest of pop, and return its item;
  -- at most five steps of a thief are steal, and return its item.
  pub calls_alone :
      (q : StealingQueue A) (x : A)
      → (owner_run 3 q (pushing x q.top) [] ≡ (push d q x, Owner.idle, []))
        × (owner_run 3
              (record q { bottom = sub_size q.bottom 1 })
              (popping (sub_size q.bottom 1))
              []
            ≡ ((pop d q).1, Owner.idle, to_list (pop d q).0))
        × (thief_run 5 q Thief.idle [] ≡ ((steal d q).1, Thief.idle, to_list (steal d q).0))
  calls_alone q x = (push_alone q x, pop_alone q, steal_alone q)
