-- ===== src/ExpiringLruCache/Calls.antt =====
-- What `find` and `emplace` keep and give.
use godby.Prelude.{
  ℕ, ◌+◌, ◌<◌, ◌≡◌, ◌≢◌, refl, sym, ◌∙◌, ap, subst, Bool, true, false, ◌&&◌, Option, none, some,
  ◌∷◌, arith, inl, inr, ◌==◌, ==_iff, Bool-cases, if◌then◌else◌, length, update, update-same,
  update_other,
}
use godby.Prelude.Chain.{mem, remove}
use godby.ExpiringLruCache.{
  Keys, MapOps, Item, Cache, back, pop_back, touch, at, assign_item, push_front, evict, make_room,
}
use godby.ExpiringLruCache.Recency.{length-remove, mem-back, pop_back-remove, back-none}
use godby.ExpiringLruCache.Bounded.{
  Valid, assign-Valid, front-Valid, erase-Valid, of_some, assigned, find_other,
}

module _ {M K V : Type 0} ⦃keys : Keys K⦄ (ops : MapOps M K (Item V)) where
  pub touch-Valid :
      (key : K) (it : Item V) (now : ℕ) (c : Cache M K)
      → ops.find c.map key ≡ some it
      → Valid ops c
      → Valid ops (touch ops key it now c)
  unfolding touch
  touch-Valid key it now c at v =
      assign-Valid ops key it (record it { node = it.node; time = now })
        (record c { used = it.node ∷ remove it.node c.used }) at refl
        (front-Valid ops it.node c (v.listed key it at).0 v)

  -- A key that is not in the map is put in front.
  pub insert-Valid :
      (key : K) (value : V) (now : ℕ) (c : Cache M K)
      → ops.find c.map key ≡ none
      → length c.used < c.capacity
      → Valid ops c
      → Valid ops (assign_item ops key value now (push_front ops key c))
  insert-Valid key value now c new room v = record {
    listed = λ k j h. elim (Bool-cases (keys.beq key k)) [
      | inl e ↦
          let eq = ap (λ x. x.node) (of_some ops (sym (assigned ops c.map key _ k e) ∙ h)) in
          (
            subst (λ n. mem n (c.next_node ∷ c.used) ≡ true) eq (ground arith),
            subst (λ n. update c.node_key c.next_node key n ≡ k) eq
                (update-same c.node_key c.next_node key ∙ (keys.beq_iff key k).0 e),
          )
      | inr e ↦
          let (in_list, key_of) = v.listed k j (sym (find_other ops c.map key _ k e) ∙ h) in
          (
            ground (arith, in_list),
            update_other c.node_key c.next_node key j.node (later j.node in_list) ∙ key_of,
          )
    ];
    mapped = λ n h. elim (Bool-cases (c.next_node == n)) [
      | inl e ↦ (
        record { value = value; node = c.next_node; time = now },
        ap (ops.find (ops.assign c.map key _)) (
              ap (update c.node_key c.next_node key) (sym ((==_iff c.next_node n).0 e))
              ∙ update-same c.node_key c.next_node key)
            ∙ assigned ops c.map key _ key ((keys.beq_iff key key).1 refl),
        (==_iff c.next_node n).0 e,
      )
      | inr e ↦
          let (j, at', node) = v.mapped n (rw e at h) in
          (
            j,
            ap (ops.find (ops.assign c.map key _))
                  (update_other c.node_key c.next_node key n (later n (rw e at h)))
                ∙ find_other ops c.map key _ (c.node_key n) (apart n j at')
                ∙ at',
            node,
          )
    ];
    unique = (fresh, v.unique);
    older = λ n h. newer n h;
    sized = ops.size-assign c.map key _ ∙ rw new (ap (λ n. n + 1) v.sized ∙ omega arith);
    bounded = omega (arith, room);
  }
    where
      later : (n : ℕ) → mem n c.used ≡ true → n ≢ c.next_node
      later n h e = omega (arith, e, v.older n h)

      fresh : mem c.next_node c.used ≡ false
      fresh = elim (Bool-cases (mem c.next_node c.used)) [
        | inl h ↦ absurd (later c.next_node h refl)
        | inr h ↦ h
      ]

      newer : (n : ℕ) → mem n (c.next_node ∷ c.used) ≡ true → n < c.next_node + 1
      newer n h = elim (Bool-cases (c.next_node == n)) [
        | inl e ↦ omega (arith, (==_iff c.next_node n).0 e)
        | inr e ↦ omega (arith, v.older n (rw e at h))
      ]

      apart :
          (n : ℕ) (j : Item V)
          → ops.find c.map (c.node_key n) ≡ some j
          → keys.beq key (c.node_key n) ≡ false
      apart n j at' = elim (Bool-cases (keys.beq key (c.node_key n))) [
        | inl e ↦ absurd (
            none-some (sym new ∙ ap (ops.find c.map) ((keys.beq_iff key (c.node_key n)).0 e) ∙ at'))
        | inr e ↦ e
      ]
        where
          none-some : none ≡ some j → ⊥
          none-some x = cc

  -- The key of the last node.
  abbrev pub key_is : (ℕ → K) → Option ℕ → K → Bool
  key_is node_key none k = false
  key_is node_key (some n) k = keys.beq (node_key n) k

  -- Whether a key leaves when a new one comes.
  abbrev pub evicts : Cache M K → K → Bool
  evicts c k = (ops.size c.map == c.capacity) && key_is c.node_key (back c.used) k

  -- Room for a new key.
  pub record Roomy (c c' : Cache M K) : Type 0 where
    pub valid : Valid ops c'
    pub room : length c'.used < c'.capacity
    pub same_capacity : c'.capacity ≡ c.capacity
    pub same_ttl : c'.ttl ≡ c.ttl
    pub finds : (k : K) → ops.find c'.map k ≡ (if evicts c k then none else ops.find c.map k)

  evict-Roomy :
      (c : Cache M K) (o : Option ℕ)
      → back c.used ≡ o
      → (ops.size c.map == c.capacity) ≡ true
      → 0 < c.capacity
      → Valid ops c
      → (c' : Cache M K) × (evict ops o c ≡ some c') × Roomy c c'
  unfolding evict
  evict-Roomy c none last full pos v =
      absurd (omega (arith, back-none c.used last, (==_iff _ _).0 full, v.sized))
  evict-Roomy c (some n) last full pos v = (
    record c { map = ops.erase c.map (c.node_key n); used = pop_back c.used },
    refl,
    record {
      valid =
          subst (λ l. Valid ops (record c { map = ops.erase c.map (c.node_key n); used = l }))
            (sym shorter)
            (subst
              (λ m.
                Valid ops
                  (record c { map = ops.erase c.map (c.node_key n); used = remove m c.used }))
              mapped.2 (erase-Valid ops (c.node_key n) mapped.0 c mapped.1 v));
      room =
          subst (λ l. length l < c.capacity) (sym shorter)
            (omega (arith, length-remove n c.used in_list, v.bounded));
      same_capacity = refl;
      same_ttl = refl;
      finds = λ k.
          ops.find-erase c.map (c.node_key n) k
          ∙ ap (λ b. if b then none else ops.find c.map k) (sym (leaves k));
    },
  )
    where
      in_list : mem n c.used ≡ true
      in_list = mem-back c.used n last

      shorter : pop_back c.used ≡ remove n c.used
      shorter = pop_back-remove c.used n v.unique last

      mapped : (it : Item V) × (ops.find c.map (c.node_key n) ≡ some it) × (it.node ≡ n)
      mapped = v.mapped n in_list

      leaves : (k : K) → evicts c k ≡ keys.beq (c.node_key n) k
      leaves k = rw (full, last) refl

  pub make_room-Roomy :
      (c : Cache M K)
      → 0 < c.capacity
      → Valid ops c
      → (c' : Cache M K) × (make_room ops c ≡ some c') × Roomy c c'
  unfolding make_room
  make_room-Roomy c pos v = elim (Bool-cases (ops.size c.map == c.capacity)) [
    | inl full ↦ let (c', e, r) = evict-Roomy c (back c.used) refl full pos v in (c', rw full e, r)
    | inr free ↦ (
      c,
      rw free refl,
      record {
        valid = v;
        room = ground (arith, free, v.bounded, v.sized);
        same_capacity = refl;
        same_ttl = refl;
        finds = λ k. rw free refl;
      },
    )
  ]
