-- ===== src/MemoryPool/Safety.antt =====
-- Any sequence of calls of `allocate` and `deallocate`.
use godby.Prelude.{
  ℕ, ◌+◌, ◌*◌, ◌%◌, ◌≤◌, ◌<◌, ◌≡◌, ◌≢◌, refl, sym, ap, subst, Bool, true, false, Option, none, some,
  [], arith, inl, inr, ◌⊎◌, Bool-cases, Option-cases, update,
}
use godby.Prelude.Chain.{mem}
use godby.MemoryPool.{
  Pool, start, set_allocate_block_threshold, is_null, first_slot, add_block, too_soon, take_slot,
  allocate_block, allocate, deallocate,
}
use godby.MemoryPool.Slots.{Sizes, Fresh, Valid, take-Valid, deallocate-Valid, of_some}
use godby.MemoryPool.Blocks.{add_block-Valid}
use godby.MemoryPool.Apart.{slots_apart, aligned}

-- What the client has after `allocate` returned.
abbrev pub handed : Option ℕ → (ℕ → Bool) → ℕ → Bool
handed none held = held
handed (some p) held = update held p true

module _ (block_size size align : ℕ) where
  -- A client gives back only what it has, and `new` gives blocks that lie apart.
  pub data Reach : Pool → (ℕ → Bool) → Type 0 where
    begin : (now : ℕ) → Reach (start now) (λ p. false)
    allocates :
        {s : Pool} {held : ℕ → Bool} (now now' buffer : ℕ)
        → Reach s held
        → Fresh block_size size align s.allocated_blocks buffer
        → Reach
            (allocate block_size size align now now' buffer s).1
            (handed (allocate block_size size align now now' buffer s).0 held)
    deallocates :
        {s : Pool} {held : ℕ → Bool} (p : ℕ)
        → Reach s held
        → held p ≡ true
        → Reach (deallocate p s) (update held p false)
    sets_threshold :
        {s : Pool} {held : ℕ → Bool} (thresh : ℕ)
        → Reach s held
        → Reach (set_allocate_block_threshold thresh s) held

  -- The three ways that `allocate` goes.
  pub allocate_free :
      (now now' buffer a : ℕ) (s : Pool)
      → s.free.node ≡ some a
      → allocate block_size size align now now' buffer s ≡ take_slot (some a) s
  unfolding allocate
  allocate_free now now' buffer a s e = rw e refl

  pub allocate_refused :
      (now now' buffer : ℕ) (s : Pool)
      → s.free.node ≡ none
      → too_soon now s ≡ true
      → allocate block_size size align now now' buffer s ≡ (none, s)
  unfolding allocate allocate_block
  allocate_refused now now' buffer s e soon = rw (e, soon) refl

  pub allocate_block_lem :
      (now now' buffer : ℕ) (s : Pool)
      → s.free.node ≡ none
      → too_soon now s ≡ false
      → allocate block_size size align now now' buffer s
        ≡ take_slot
            (some (first_slot block_size size align buffer))
            (add_block block_size size align now' buffer s)
  unfolding allocate allocate_block add_block
  allocate_block_lem now now' buffer s e later = rw (ap is_null e, later) refl

  module _ (z : Sizes block_size size align) where
    -- What `allocate` keeps, and that it hands out what the client has not.
    abbrev Kept : (ℕ → Bool) → Option ℕ × Pool → Type 0
    Kept held r =
        Valid block_size size align r.1 (handed r.0 held)
        × ((p : ℕ) → r.0 ≡ some p → held p ≡ false)

    taken_Kept :
        (a : ℕ) (s : Pool) (held : ℕ → Bool)
        → s.free.node ≡ some a
        → Valid block_size size align s held
        → Kept held (take_slot (some a) s)
    unfolding take_slot
    taken_Kept a s held e v =
        let (kept, free) = take-Valid block_size size align a s held e v in
        (kept, λ p h. subst (λ x. held x ≡ false) (of_some h) free)

    pub allocate-Kept :
        (now now' buffer : ℕ) (s : Pool) (held : ℕ → Bool)
        → Valid block_size size align s held
        → Fresh block_size size align s.allocated_blocks buffer
        → Kept held (allocate block_size size align now now' buffer s)
    unfolding add_block
    allocate-Kept now now' buffer s held v new = elim (Option-cases s.free.node) [
      | inr (a, e) ↦
          subst (Kept held) (sym (allocate_free now now' buffer a s e)) (taken_Kept a s held e v)
      | inl e ↦ elim (Bool-cases (too_soon now s)) [
        | inl soon ↦ subst (Kept held) (sym (allocate_refused now now' buffer s e soon)) refused
        | inr later ↦ subst (Kept held) (sym (allocate_block_lem now now' buffer s e later)) (
            taken_Kept _ _ held added
              (add_block-Valid block_size size align z buffer s held new v e now'))
      ]
    ]
      where
        refused : Kept held (none, s)
        refused = (v, λ p h. absurd (contrary h))
          where
            contrary : {p : ℕ} → none ≡ some p → ⊥
            contrary h = cc

        added :
            (add_block block_size size align now' buffer s).free.node
            ≡ some (first_slot block_size size align buffer)
        added = refl

    pub Reach-Valid :
        {s : Pool} {held : ℕ → Bool} → Reach s held → Valid block_size size align s held
    Reach-Valid (begin now) = record {
      list = [];
      chain = refl;
      unique = tt;
      free = λ p h. absurd (contrary h);
      taken = λ p h. absurd (contrary h);
      disjoint = λ b b' h h'. absurd (contrary h);
      places = λ b h. absurd (contrary h);
      counted = omega arith;
    }
      where
        contrary : false ≡ true → ⊥
        contrary h = cc
    Reach-Valid (allocates {s} {held} now now' buffer before new) =
        (allocate-Kept now now' buffer s held (Reach-Valid before) new).0
    Reach-Valid (deallocates {s} {held} p before h) =
        deallocate-Valid block_size size align p s held h (Reach-Valid before)
    Reach-Valid (sets_threshold thresh before) =
        let v = Reach-Valid before in
        record {
          list = v.list;
          chain = v.chain;
          unique = v.unique;
          free = v.free;
          taken = v.taken;
          disjoint = v.disjoint;
          places = v.places;
          counted = v.counted;
        }

-- After any calls of allocate and deallocate, where the client gives back only what it has and `new` gives blocks
-- that lie apart below 2 ^ 64, for a slot that holds a pointer and more, an alignment that is a power of two
-- and divides its size, and blocks of three slots or more: what the client has is aligned and lies
-- inside a block, and two addresses that it has do not overlap.
pub held_apart :
    (block_size size align : ℕ)
    → Sizes block_size size align
    → {s : Pool} {held : ℕ → Bool} → Reach block_size size align s held
    → (p q : ℕ) → held p ≡ true
    → held q ≡ true
    → p ≢ q
    → ((p + size ≤ q) ⊎ (q + size ≤ p))
      × (p % align ≡ 0)
      × ((b : ℕ) × (mem b s.allocated_blocks ≡ true) × (b < p) × (p + size ≤ b + block_size * size))
held_apart block_size size align z {s} {held} reach p q hp hq ne =
    let v = Reach-Valid block_size size align z reach in
    let a = v.taken p hp in
    (
      slots_apart block_size size align z v p q a (v.taken q hq) ne,
      aligned block_size size align z p v.places a,
      (a.buffer, a.block, omega (arith, a.at), a.fits),
    )
