-- ===== src/MemoryPool/Slots.antt =====
-- What the calls of a pool keep: the free slots and those handed out lie apart in the blocks.
use godby.Prelude.{
  ℕ, ◌+◌, ◌*◌, ◌/◌, ◌%◌, ◌^◌, ◌≤◌, ◌<◌, ◌≡◌, refl, sym, ◌∙◌, subst, Bool, true, false, none, some,
  List, [], ◌∷◌, arith, inl, inr, ◌⊎◌, ◌==◌, ==_iff, Bool-cases, update, update-same,
}
use godby.Prelude.Chain.{mem, Unique}
use godby.MemoryPool.{Pool, pointer_size, first_slot, take_slot, deallocate}
use godby.Prelude.Linked.{Chain, Chain-update}

-- What holds of `block_size`, `sizeof(slot_t)` and `alignof(slot_t)`: a slot holds a pointer and more, its
-- alignment is a power of two, and a block has room for three slots.
pub record Sizes (block_size size align : ℕ) : Type 0 where
  pub room : 3 ≤ block_size
  pub wide : pointer_size < size
  pub aligned : align * (2 ^ 64 / align) ≡ 2 ^ 64
  pub positive : 0 < align
  pub small : align ≤ size
  pub bounded : size < 2 ^ 64
  pub whole : size % align ≡ 0

pub of_some : {a b : ℕ} → some a ≡ some b → a ≡ b
of_some e = cc

module _ (block_size size align : ℕ) where
  -- An address of a slot in one of the blocks.
  pub record Slot (blocks : List ℕ) (p : ℕ) : Type 0 where
    pub buffer : ℕ
    pub block : mem buffer blocks ≡ true
    pub index : ℕ
    pub at : p ≡ first_slot block_size size align buffer + index * size
    pub fits : p + size ≤ buffer + block_size * size

  -- A block that `new` may give: it lies apart from the others, below 2 ^ 64.
  pub record Fresh (blocks : List ℕ) (buffer : ℕ) : Type 0 where
    pub apart :
        (b : ℕ)
        → mem b blocks ≡ true
        → (buffer + block_size * size ≤ b) ⊎ (b + block_size * size ≤ buffer)
    pub below : buffer + block_size * size < 2 ^ 64

  -- `held p` says whether the client has the slot at `p`.
  pub record Valid (s : Pool) (held : ℕ → Bool) : Type 0 where
    pub list : List ℕ
    pub chain : Chain s.next s.free.node list
    pub unique : Unique list
    pub free : (p : ℕ) → mem p list ≡ true → Slot s.allocated_blocks p × (held p ≡ false)
    pub taken : (p : ℕ) → held p ≡ true → Slot s.allocated_blocks p
    pub disjoint :
        (b b' : ℕ)
        → mem b s.allocated_blocks ≡ true
        → mem b' s.allocated_blocks ≡ true
        → (b ≡ b') ⊎ ((b + block_size * size ≤ b') ⊎ (b' + block_size * size ≤ b))
    pub places : (b : ℕ) → mem b s.allocated_blocks ≡ true → b + block_size * size < 2 ^ 64
    pub counted : s.max_size < 2 ^ 64

  -- The head of the list is handed out.
  pub take-Valid :
      (a : ℕ) (s : Pool) (held : ℕ → Bool)
      → s.free.node ≡ some a
      → Valid s held
      → Valid (take_slot (some a) s).1 (update held a true) × (held a ≡ false)
  unfolding take_slot
  take-Valid a s held at_node v = from v.list v.chain v.unique v.free
    where
      from :
          (l : List ℕ)
          → Chain s.next s.free.node l
          → Unique l
          → ((p : ℕ) → mem p l ≡ true → Slot s.allocated_blocks p × (held p ≡ false))
          → Valid (take_slot (some a) s).1 (update held a true) × (held a ≡ false)
      from [] c u f = absurd (empty (sym c ∙ at_node))
        where
          empty : none ≡ some a → ⊥
          empty x = cc
      from (b ∷ l) c u f =
          let same = of_some (sym at_node ∙ c.0) in
          (
            record {
              list = l;
              chain = subst (λ p. Chain s.next (s.next p) l) (sym same) c.1;
              unique = u.1;
              free = λ p h. ((f p (ground arith)).0, unheld p h);
              taken = λ p h. elim (Bool-cases (a == p)) [
                | inl e ↦ subst (Slot s.allocated_blocks) ((==_iff a p).0 e) (f a (at_head same)).0
                | inr e ↦ v.taken p (rw e at h)
              ];
              disjoint = v.disjoint;
              places = v.places;
              counted = v.counted;
            },
            (f a (at_head same)).1,
          )
        where
          at_head : a ≡ b → mem a (b ∷ l) ≡ true
          at_head same = ground (arith, same)

          unheld : (p : ℕ) → mem p l ≡ true → update held a true p ≡ false
          unheld p h = elim (Bool-cases (a == p)) [
            | inl e ↦ absurd (twice ((==_iff a p).0 e))
            | inr e ↦ rw e (f p (ground arith)).1
          ]
            where
              twice : a ≡ p → ⊥
              twice e =
                  contrary
                    (subst (λ x. mem x l ≡ false) (sym (of_some (sym at_node ∙ c.0)) ∙ e) u.0) h
                where
                  contrary : mem p l ≡ false → mem p l ≡ true → ⊥
                  contrary x y = cc

  pub deallocate-Valid :
      (p : ℕ) (s : Pool) (held : ℕ → Bool)
      → held p ≡ true
      → Valid s held
      → Valid (deallocate p s) (update held p false)
  unfolding deallocate
  deallocate-Valid p s held h v = record {
    list = p ∷ v.list;
    chain = (
      refl,
      subst (λ o. Chain (update s.next p s.free.node) o v.list)
          (sym (update-same s.next p s.free.node))
          (Chain-update s.next p s.free.node s.free.node v.list out v.chain),
    );
    unique = (out, v.unique);
    free = λ q m. elim (Bool-cases (p == q)) [
      | inl e ↦ (subst (Slot s.allocated_blocks) ((==_iff p q).0 e) (v.taken p h), rw e refl)
      | inr e ↦ let (slot, un) = v.free q (rw e at m) in (slot, rw e un)
    ];
    taken = λ q m. elim (Bool-cases (p == q)) [
      | inl e ↦ absurd (false_true (rw e at m))
      | inr e ↦ v.taken q (rw e at m)
    ];
    disjoint = v.disjoint;
    places = v.places;
    counted = v.counted;
  }
    where
      false_true : false ≡ true → ⊥
      false_true e = cc

      out : mem p v.list ≡ false
      out = elim (Bool-cases (mem p v.list)) [
        | inl m ↦ absurd (contrary (v.free p m).1)
        | inr m ↦ m
      ]
        where
          contrary : held p ≡ false → ⊥
          contrary e = cc
