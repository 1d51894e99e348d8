-- ===== src/ExpiringLruCache/Lru.antt =====
-- Any sequence of calls of the cache.
use godby.Prelude.{
  ℕ, ◌-◌, ◌/◌, ◌≤◌, ◌<◌, ◌≡◌, refl, sym, ◌∙◌, ap, subst, Bool, true, false, ◌&&◌, not, Option, none,
  some, arith, inl, inr, ltb, Bool-cases, if◌then◌else◌,
}
use godby.ExpiringLruCache.{
  is_some, Keys, MapOps, Item, Cache, front, second, touch, expired, erase_item, find_item, find,
  value_of, at, assign_item, push_front, add_item, emplace_item, emplace, create, size, list_size,
}
use godby.ExpiringLruCache.Bounded.{Valid, assign-Valid, erase-Valid, of_some, assigned, find_other}
use godby.ExpiringLruCache.Calls.{touch-Valid, insert-Valid, evicts, make_room-Roomy}

module _ {M K V : Type 0} ⦃keys : Keys K⦄ (ops : MapOps M K (Item V)) where
  pub data Reach : Cache M K → Type 0 where
    begin : (capacity ttl : ℕ) (unused : K) → 0 < capacity → Reach (create ops capacity ttl unused)
    finds : {c : Cache M K} (key : K) (now now' : ℕ) → Reach c → Reach (find ops key now now' c).1
    emplaces :
        {c : Cache M K} (key : K) (value : V) (now now' : ℕ) (c' : Cache M K)
        → Reach c
        → emplace ops key value now now' c ≡ some c'
        → Reach c'

  record Kept (c : Cache M K) : Type 0 where
    pub valid : Valid ops c
    pub positive : 0 < c.capacity

  -- What `emplace` leaves.
  record Emplaced (key : K) (value : V) (now : ℕ) (c c' : Cache M K) : Type 0 where
    pub kept : Kept c'
    pub own :
        ops.find c'.map key ≡ some (record { value = value; node = front c'.used; time = now })
    pub same_ttl : c'.ttl ≡ c.ttl
    pub others :
        (j : K)
        → keys.beq key j ≡ false
        → ops.find c'.map j ≡ (
            if not (is_some (ops.find c.map key)) && evicts ops c j then none else ops.find c.map j)

  emplace_item-Emplaced :
      (key : K) (value : V) (o : Option (Item V)) (now now' : ℕ) (c : Cache M K)
      → ops.find c.map key ≡ o
      → Kept c
      → (c' : Cache M K) × (emplace_item ops key value o now now' c ≡ some c')
        × Emplaced key value now' c c'
  unfolding emplace_item touch
  emplace_item-Emplaced key value (some it) now now' c at k = (
    assign_item ops key value now' (touch ops key it now c),
    refl,
    record {
      kept = record {
        valid =
            assign-Valid ops key (record it { time = now }) _ (touch ops key it now c)
              (assigned ops c.map key _ key ((keys.beq_iff key key).1 refl)) refl
              (touch-Valid ops key it now c at k.valid);
        positive = k.positive;
      };
      own = assigned ops _ key _ key ((keys.beq_iff key key).1 refl);
      same_ttl = refl;
      others = λ j ne. find_other ops _ key _ j ne ∙ find_other ops _ key _ j ne ∙ rw at refl;
    },
  )
  emplace_item-Emplaced key value none now now' c at k =
      let (c1, e, r) = make_room-Roomy ops c k.positive k.valid in
      (
        assign_item ops key value now' (push_front ops key c1),
        ap (add_item ops key value now') e,
        record {
          kept = record {
            valid =
                insert-Valid ops key value now' c1 (missing (evicts ops c key) (r.finds key)) r.room
                  r.valid;
            positive = omega (arith, r.same_capacity, k.positive);
          };
          own = assigned ops _ key _ key ((keys.beq_iff key key).1 refl);
          same_ttl = r.same_ttl;
          others = λ j ne. find_other ops _ key _ j ne ∙ r.finds j ∙ rw at refl;
        },
      )
    where
      missing :
          {o : Option (Item V)} (b : Bool) → o ≡ (if b then none else ops.find c.map key) → o ≡ none
      missing true h = h
      missing false h = h ∙ at

  find_item-Kept :
      (key : K) (o : Option (Item V)) (now now' : ℕ) (c : Cache M K)
      → ops.find c.map key ≡ o
      → Kept c
      → Kept (find_item ops key o now now' c).1
  unfolding find_item touch
  find_item-Kept key none now now' c at k = k
  find_item-Kept key (some it) now now' c at k = elim (Bool-cases (expired ops it now c)) [
    | inl old ↦
        rw old (record { valid = erase-Valid ops key it c at k.valid; positive = k.positive })
    | inr young ↦
        rw young
          (record { valid = touch-Valid ops key it now' c at k.valid; positive = k.positive })
  ]

  Reach-Kept : {c : Cache M K} → Reach c → Kept c
  unfolding find emplace
  Reach-Kept (begin capacity ttl unused pos) = record {
    valid = record {
      listed = λ k it h. absurd (contrary (sym (ops.find-empty k) ∙ h));
      mapped = λ n h. absurd (never h);
      unique = tt;
      older = λ n h. absurd (never h);
      sized = ops.size-empty;
      bounded = omega arith;
    };
    positive = pos;
  }
    where
      contrary : {A : Type 0} {a : A} → none ≡ some a → ⊥
      contrary h = cc

      never : false ≡ true → ⊥
      never h = cc
  Reach-Kept (finds {c} key now now' before) =
      find_item-Kept key (ops.find c.map key) now now' c refl (Reach-Kept before)
  Reach-Kept (emplaces {c} key value now now' c' before e) =
      let (c'', e', r) =
        emplace_item-Emplaced key value (ops.find c.map key) now now' c refl (Reach-Kept before) in
      subst Kept (of_some ops (sym e' ∙ e)) r.kept

  at-own :
      (key : K) (it : Item V) (now now' : ℕ) (c : Cache M K)
      → ops.find c.map key ≡ some it
      → expired ops it now c ≡ false
      → (at ops key now now' c).0 ≡ some it.value
  unfolding at find find_item touch
  at-own key it now now' c e young =
      subst (λ o. value_of ops (find_item ops key o now now' c).0 ≡ some it.value) (sym e)
        (subst
          (λ b.
            value_of ops
              (if◌then◌else◌ {A = Option (Item V) × Cache M K} b (none, erase_item ops key it c)
                (ops.find (touch ops key it now' c).map key, touch ops key it now' c)).0
            ≡ some it.value)
          (sym young)
          (ap (value_of ops) (assigned ops c.map key _ key ((keys.beq_iff key key).1 refl))))

-- After any calls of find and emplace, for a capacity above 0 and a hash map that keeps its promises, there are no
-- more items in the map than the capacity, and as many as in the list.
pub size_bounded :
    {M K V : Type 0} ⦃keys : Keys K⦄ (ops : MapOps M K (Item V)) {c : Cache M K}
    → Reach ops c
    → (size ops c ≤ c.capacity) × (size ops c ≡ list_size ops c)
size_bounded ops {c} reach =
    let v = (Reach-Kept ops reach).valid in (omega (arith, v.sized, v.bounded), v.sized)

-- After any such calls emplace never takes the last of an empty list; while the item has not expired, at then
-- gives the value for the key; and every other key has the item that it had, but for the last key of
-- the list, which has none if the key is new and there were as many items as the capacity.
pub emplace_lem :
    {M K V : Type 0} ⦃keys : Keys K⦄ (ops : MapOps M K (Item V)) {c : Cache M K}
    → Reach ops c
    → (key : K) (value : V) (now now' : ℕ)
    → (c' : Cache M K) × (emplace ops key value now now' c ≡ some c')
      × ((later later' : ℕ)
          → ltb c.ttl ((later - now') / second) ≡ false
          → (at ops key later later' c').0 ≡ some value)
      × ((j : K)
          → keys.beq key j ≡ false
          → ops.find c'.map j ≡ (
              if not (is_some (ops.find c.map key)) && evicts ops c j
              then none
              else ops.find c.map j))
unfolding emplace
emplace_lem ⦃keys⦄ ops {c} reach key value now now' =
    let (c', e, r) =
      emplace_item-Emplaced ops key value (ops.find c.map key) now now' c refl
        (Reach-Kept ops reach) in
    (
      c',
      e,
      λ later later' young.
          at-own ops key (record { value = value; node = front c'.used; time = now' }) later later'
            c' r.own (ap (λ ttl. ltb ttl ((later - now') / second)) r.same_ttl ∙ young),
      r.others,
    )
