-- ===== src/ExpiringLruCache/Bounded.antt =====
-- The map and the list have the same keys, and no more than the capacity.
use godby.Prelude.{
  ℕ, ◌-◌, ◌≤◌, ◌<◌, ◌≡◌, ◌≢◌, refl, sym, ◌∙◌, ap, subst, true, false, Option, none, some, ◌∷◌,
  arith, inl, inr, Bool-cases, if◌then◌else◌, length,
}
use godby.Prelude.Chain.{mem, remove, Unique, Unique-remove}
use godby.ExpiringLruCache.{is_some, Keys, MapOps, Item, Cache, erase_item}
use godby.ExpiringLruCache.Recency.{
  mem-front, mem-remove_self, mem-removed, mem-remove_other, length-remove,
}

module _ {M K V : Type 0} ⦃keys : Keys K⦄ (ops : MapOps M K (Item V)) where
  pub record Valid (c : Cache M K) : Type 0 where
    pub listed :
        (k : K) (it : Item V)
        → ops.find c.map k ≡ some it
        → (mem it.node c.used ≡ true) × (c.node_key it.node ≡ k)
    pub mapped :
        (n : ℕ)
        → mem n c.used ≡ true
        → (it : Item V) × (ops.find c.map (c.node_key n) ≡ some it) × (it.node ≡ n)
    pub unique : Unique c.used
    pub older : (n : ℕ) → mem n c.used ≡ true → n < c.next_node
    pub sized : ops.size c.map ≡ length c.used
    pub bounded : length c.used ≤ c.capacity

  beq_self : (k : K) → keys.beq k k ≡ true
  beq_self k = (keys.beq_iff k k).1 refl

  pub of_some : {A : Type 0} {a b : A} → some a ≡ some b → a ≡ b
  of_some e = cc

  pub assigned :
      (m : M) (k : K) (e : Item V) (j : K)
      → keys.beq k j ≡ true
      → ops.find (ops.assign m k e) j ≡ some e
  assigned m k e j same = ops.find-assign m k e j ∙ rw same refl

  pub find_other :
      (m : M) (k : K) (e : Item V) (j : K)
      → keys.beq k j ≡ false
      → ops.find (ops.assign m k e) j ≡ ops.find m j
  find_other m k e j ne = ops.find-assign m k e j ∙ rw ne refl

  -- The item of a key in the map is replaced, with the same node.
  pub assign-Valid :
      (key : K) (it new : Item V) (c : Cache M K)
      → ops.find c.map key ≡ some it
      → new.node ≡ it.node
      → Valid c
      → Valid (record c { map = ops.assign c.map key new })
  assign-Valid key it new c at same v = record {
    listed = λ k j h. elim (Bool-cases (keys.beq key k)) [
      | inl e ↦
          let eq = of_some (sym (assigned c.map key new k e) ∙ h) in
          let (in_list, key_of) = v.listed key it at in
          (
            subst (λ n. mem n c.used ≡ true) (sym same ∙ ap (λ x. x.node) eq) in_list,
            ap c.node_key (sym (sym same ∙ ap (λ x. x.node) eq))
                ∙ key_of
                ∙ (keys.beq_iff key k).0 e,
          )
      | inr e ↦ v.listed k j (sym (find_other c.map key new k e) ∙ h)
    ];
    mapped = λ n h. elim (Bool-cases (keys.beq key (c.node_key n))) [
      | inl e ↦
          let (j, at', node) = v.mapped n h in
          (
            new,
            assigned c.map key new (c.node_key n) e,
            same
                ∙ ap (λ x. x.node)
                    (of_some
                      (sym at ∙ ap (ops.find c.map) ((keys.beq_iff key (c.node_key n)).0 e) ∙ at'))
                ∙ node,
          )
      | inr e ↦
          let (j, at', node) = v.mapped n h in
          (j, find_other c.map key new (c.node_key n) e ∙ at', node)
    ];
    unique = v.unique;
    older = v.older;
    sized = ops.size-assign c.map key new ∙ rw at v.sized;
    bounded = v.bounded;
  }

  -- A node goes to the front.
  pub front-Valid :
      (n : ℕ) (c : Cache M K)
      → mem n c.used ≡ true
      → Valid c
      → Valid (record c { used = n ∷ remove n c.used })
  front-Valid n c at v = record {
    listed = λ k j h.
        let (in_list, key) = v.listed k j h in
        (mem-front n c.used at v.unique j.node ∙ in_list, key);
    mapped = λ i h. v.mapped i (sym (mem-front n c.used at v.unique i) ∙ h);
    unique = (mem-remove_self n c.used v.unique, Unique-remove n c.used v.unique);
    older = λ i h. v.older i (sym (mem-front n c.used at v.unique i) ∙ h);
    sized = v.sized ∙ sym (length-remove n c.used at) ∙ omega arith;
    bounded = omega (arith, length-remove n c.used at, v.bounded);
  }

  -- A key leaves the map and its node the list.
  pub erase-Valid :
      (key : K) (it : Item V) (c : Cache M K)
      → ops.find c.map key ≡ some it
      → Valid c
      → Valid (erase_item ops key it c)
  erase-Valid key it c at v = record {
    listed = λ k j h. elim (Bool-cases (keys.beq key k)) [
      | inl e ↦ absurd (none-some (sym (erased k e) ∙ h))
      | inr e ↦
          let (in_list, key_of) = v.listed k j (sym (left k e) ∙ h) in
          (
            mem-remove_other j.node it.node c.used v.unique in_list
                (λ same. differ k e (sym own.1 ∙ ap c.node_key same ∙ key_of)),
            key_of,
          )
    ];
    mapped = λ n h.
        let (in_list, ne) = mem-removed n it.node c.used v.unique h in
        let (j, at', node) = v.mapped n in_list in
        (j, left (c.node_key n) (apart n j at' node ne) ∙ at', node);
    unique = Unique-remove it.node c.used v.unique;
    older = λ n h. v.older n (mem-removed n it.node c.used v.unique h).0;
    sized =
        ops.size-erase c.map key
        ∙ ap (λ (o : Option (Item V)). if is_some o then ops.size c.map - 1 else ops.size c.map) at
        ∙ omega (arith, v.sized, length-remove it.node c.used own.0);
    bounded = omega (arith, length-remove it.node c.used own.0, v.bounded);
  }
    where
      own : (mem it.node c.used ≡ true) × (c.node_key it.node ≡ key)
      own = v.listed key it at

      none-some : {A : Type 0} {a : A} → none ≡ some a → ⊥
      none-some e = cc

      erased : (k : K) → keys.beq key k ≡ true → ops.find (ops.erase c.map key) k ≡ none
      erased k e = ops.find-erase c.map key k ∙ rw e refl

      left : (k : K) → keys.beq key k ≡ false → ops.find (ops.erase c.map key) k ≡ ops.find c.map k
      left k e = ops.find-erase c.map key k ∙ rw e refl

      differ : (k : K) → keys.beq key k ≡ false → key ≡ k → ⊥
      differ k e same = contrary (sym e ∙ (keys.beq_iff key k).1 same)
        where
          contrary : false ≡ true → ⊥
          contrary x = cc

      apart :
          (n : ℕ) (j : Item V)
          → ops.find c.map (c.node_key n) ≡ some j
          → j.node ≡ n
          → it.node ≢ n
          → keys.beq key (c.node_key n) ≡ false
      apart n j at' node ne = elim (Bool-cases (keys.beq key (c.node_key n))) [
        | inl e ↦ absurd (
            ne (
              ap (λ x. x.node)
                (of_some
                  (sym at ∙ ap (ops.find c.map) ((keys.beq_iff key (c.node_key n)).0 e) ∙ at'))
              ∙ node))
        | inr e ↦ e
      ]
