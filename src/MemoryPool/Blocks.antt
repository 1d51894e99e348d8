-- ===== src/MemoryPool/Blocks.antt =====
-- A new block: its slots lie inside it, and are linked from the head of the free list.
use godby.Prelude.{
  ℕ, suc, ◌+◌, ◌-◌, ◌*◌, ◌%◌, ◌^◌, ◌≤◌, ◌<◌, ◌≡◌, ◌≢◌, sym, ◌∙◌, ap, subst, Bool, true, false,
  Option, none, some, ◌∷◌, arith, inl, inr, ◌⊎◌, ◌==◌, ==_iff, Bool-cases, update, update-same,
  update_other, dec_lt,
}
use godby.Prelude.Chain.{mem}
use godby.MemoryPool.{Pool, pointer_size, pad_pointer, set_next, first_slot, linked, add_block}
use godby.MemoryPool.Layout.{slots, Turns, link_slots-Turns, mul_mono}
use godby.Prelude.Linked.{Chain}
use godby.MemoryPool.FreeList.{Chain-slots, mem-slots, Unique-slots}
use godby.MemoryPool.Slots.{Sizes, Slot, Fresh, Valid}
use native.Mathlib.Nat.{mod-lt, mul-le-mul_right}

module _ (block_size size align : ℕ) (z : Sizes block_size size align) where
  -- There is room for a slot in a block.
  first_slot-fits :
      (buffer : ℕ) → first_slot block_size size align buffer + size < buffer + block_size * size
  unfolding pad_pointer
  first_slot-fits buffer = omega (
    arith,
    mod-lt ((align + 2 ^ 64 - (buffer + pointer_size)) % 2 ^ 64) z.positive,
    z.small,
    z.wide,
    mul-le-mul_right size z.room,
  )

  module _ (buffer : ℕ) (s : Pool) (held : ℕ → Bool)
      (new : Fresh block_size size align s.allocated_blocks buffer)
      (v : Valid block_size size align s held) (empty : s.free.node ≡ none) where
    abbrev pub from : ℕ
    from = first_slot block_size size align buffer

    pub turns :
        Turns size
          (buffer + block_size * size)
          (record {
            at = from;
            next = set_next s.last_slot (some from) s.next;
            max_size = s.max_size;
          })
          (linked block_size size align buffer s)
    turns = link_slots-Turns size (omega (arith, z.wide)) block_size _ _ (omega arith) v.counted

    -- The number of slots but for the last.
    pub more : (m : ℕ) × (suc m ≡ turns.n)
    more = elim (dec_lt 0 turns.n) [
      | yes p ↦ (turns.n - 1, omega arith)
      | no p ↦ absurd (omega (arith, first_slot-fits buffer, turns.stops, turns.at, none_left p))
    ]
      where
        none_left : ¬ (0 < turns.n) → turns.n * size ≡ 0
        none_left p = ap (λ m. m * size) {x = turns.n} {y = 0} (omega arith) ∙ omega arith

    abbrev pub m : ℕ
    m = more.0

    at_end : (linked block_size size align buffer s).at ≡ from + m * size + size
    at_end = turns.at ∙ ap (λ n. from + n * size) (sym more.1) ∙ omega arith

    new_fits :
        (q : ℕ) → mem q (slots size from (suc m)) ≡ true → q + size ≤ buffer + block_size * size
    new_fits q h =
        let (i, lt, eq) = mem-slots size from (suc m) q h in
        omega (arith, eq, mul_mono i (suc m) size lt, at_end, turns.inside (omega (arith, more.1)))

    new-Slot :
        (q : ℕ)
        → mem q (slots size from (suc m)) ≡ true
        → Slot block_size size align (buffer ∷ s.allocated_blocks) q
    new-Slot q h =
        let (i, lt, eq) = mem-slots size from (suc m) q h in
        record { buffer = buffer; block = ground arith; index = i; at = eq; fits = new_fits q h }

    older-Slot :
        (p : ℕ)
        → Slot block_size size align s.allocated_blocks p
        → Slot block_size size align (buffer ∷ s.allocated_blocks) p
    older-Slot p slot = record {
      buffer = slot.buffer;
      block = ground (arith, slot.block);
      index = slot.index;
      at = slot.at;
      fits = slot.fits;
    }

    -- What is held lies in other blocks than the new slots.
    new_unheld : (q : ℕ) → mem q (slots size from (suc m)) ≡ true → held q ≡ false
    new_unheld q h = elim (Bool-cases (held q)) [
      | inl taken ↦ absurd (clash (v.taken q taken))
      | inr free ↦ free
    ]
      where
        clash : Slot block_size size align s.allocated_blocks q → ⊥
        clash old = elim (new.apart old.buffer old.block) [
          | inl left ↦ absurd (omega (arith, left, old.at, new_fits q h, z.wide))
          | inr right ↦ absurd (omega (arith, right, old.fits, starts, z.wide))
        ]
          where
            starts : buffer ≤ q
            starts = let (i, lt, eq) = mem-slots size from (suc m) q h in omega (arith, eq)

    apart_blocks :
        (b b' : ℕ)
        → mem b (buffer ∷ s.allocated_blocks) ≡ true
        → mem b' (buffer ∷ s.allocated_blocks) ≡ true
        → (b ≡ b') ⊎ ((b + block_size * size ≤ b') ⊎ (b' + block_size * size ≤ b))
    apart_blocks b b' h h' = elim (Bool-cases (buffer == b)) [
      | inl e ↦ elim (Bool-cases (buffer == b')) [
        | inl e' ↦ inl (sym ((==_iff buffer b).0 e) ∙ (==_iff buffer b').0 e')
        | inr e' ↦ inr (
            subst (λ x. (x + block_size * size ≤ b') ⊎ (b' + block_size * size ≤ x))
              ((==_iff buffer b).0 e) (new.apart b' (rw e' at h')))
      ]
      | inr e ↦ elim (Bool-cases (buffer == b')) [
        | inl e' ↦ inr (
            subst (λ x. (b + block_size * size ≤ x) ⊎ (x + block_size * size ≤ b))
              ((==_iff buffer b').0 e') (flip (new.apart b (rw e at h))))
        | inr e' ↦ v.disjoint b b' (rw e at h) (rw e' at h')
      ]
    ]
      where
        flip : {x y : ℕ} → (x ≤ b) ⊎ (y ≤ buffer) → (y ≤ buffer) ⊎ (x ≤ b)
        flip (inl h) = inr h
        flip (inr h) = inl h

    last_slot_at : (linked block_size size align buffer s).at - size ≡ from + m * size
    last_slot_at = omega (arith, at_end)

    -- The slots are linked in order, and the last one ends the list.
    pub chain :
        Chain
          (add_block block_size size align 0 buffer s).next
          (some from)
          (slots size from (suc m))
    unfolding add_block
    chain =
        Chain-slots _ size from m
          (λ i h.
            update_other cut last s.free.node (from + i * size) (apart i h)
            ∙ update_other linked_next last none (from + i * size) (apart i h)
            ∙ turns.links i (omega (arith, more.1, h)))
          (subst
            (λ q.
              update (update (linked block_size size align buffer s).next q none) q s.free.node
                (from + m * size)
              ≡ none)
            (sym last_slot_at)
            (update-same (update linked_next (from + m * size) none) (from + m * size) s.free.node
              ∙ empty))
      where
        last : ℕ
        last = (linked block_size size align buffer s).at - size

        linked_next : ℕ → Option ℕ
        linked_next = (linked block_size size align buffer s).next

        cut : ℕ → Option ℕ
        cut = update linked_next last none

        apart :
            (i : ℕ) → i < m → from + i * size ≢ (linked block_size size align buffer s).at - size
        apart i h e = omega (arith, e, last_slot_at, mul_mono i m size h, z.wide)

    pub add_block-Valid :
        (now : ℕ) → Valid block_size size align (add_block block_size size align now buffer s) held
    unfolding add_block
    add_block-Valid now = record {
      list = slots size from (suc m);
      chain = chain;
      unique = Unique-slots size from (suc m) (omega (arith, z.wide));
      free = λ p h. (new-Slot p h, new_unheld p h);
      taken = λ p h. older-Slot p (v.taken p h);
      disjoint = apart_blocks;
      places = λ b h. elim (Bool-cases (buffer == b)) [
        | inl e ↦ subst (λ x. x + block_size * size < 2 ^ 64) ((==_iff buffer b).0 e) new.below
        | inr e ↦ v.places b (rw e at h)
      ];
      counted = omega (arith, turns.counts);
    }

    pub ends :
        (from + suc m * size < buffer + block_size * size)
        × (buffer + block_size * size ≤ from + suc m * size + size)
        × ((linked block_size size align buffer s).max_size ≡ (s.max_size + suc m) % 2 ^ 64)
    ends = (
      omega (arith, at_end, turns.inside (omega (arith, more.1))),
      omega (arith, at_end, turns.stops),
      turns.counts ∙ ap (λ n. (s.max_size + n) % 2 ^ 64) (sym more.1),
    )
