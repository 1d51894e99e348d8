-- ===== src/MemoryPool/Allocate.antt =====
-- What `allocate` and a new block come to, after any calls.
use godby.Prelude.{
  ℕ, suc, ◌+◌, ◌*◌, ◌%◌, ◌^◌, ◌≤◌, ◌<◌, ◌≡◌, ◌≢◌, sym, ◌∙◌, ap, Bool, true, false, none, some,
  arith, inl, inr, ◌⊎◌, Bool-cases, Option-cases,
}
use godby.MemoryPool.{Pool, first_slot, add_block, too_soon, take_slot, allocate}
use godby.MemoryPool.Slots.{Sizes, Fresh}
use godby.MemoryPool.Layout.{slots}
use godby.Prelude.Linked.{Chain}
use godby.MemoryPool.Blocks.{m, ends, chain}
use godby.MemoryPool.Safety.{
  Reach, Reach-Valid, allocate_free, allocate_refused, allocate_block_lem, allocate-Kept,
}

-- After any such calls allocate either returns null and changes nothing, which it does exactly when the free list is
-- empty and the last block is too recent, or it returns a slot that the client does not have.
pub allocate_lem :
    (block_size size align : ℕ)
    → Sizes block_size size align
    → {s : Pool} {held : ℕ → Bool} → Reach block_size size align s held
    → (now now' buffer : ℕ) → Fresh block_size size align s.allocated_blocks buffer
    → ((s.free.node ≡ none)
        × (too_soon now s ≡ true)
        × (allocate block_size size align now now' buffer s ≡ (none, s)))
      ⊎ (((s.free.node ≢ none) ⊎ (too_soon now s ≡ false))
          × ((p : ℕ) × ((allocate block_size size align now now' buffer s).0 ≡ some p)
              × (held p ≡ false)))
unfolding take_slot
allocate_lem block_size size align z {s} {held} reach now now' buffer new =
    elim (Option-cases s.free.node) [
      | inr (a, e) ↦ inr (
        inl (λ h. contrary (sym h ∙ e)),
        returns a s (allocate_free block_size size align now now' buffer a s e),
      )
      | inl e ↦ elim (Bool-cases (too_soon now s)) [
        | inl soon ↦ inl (e, soon, allocate_refused block_size size align now now' buffer s e soon)
        | inr later ↦ inr (
          inr later,
          returns (first_slot block_size size align buffer)
              (add_block block_size size align now' buffer s)
              (allocate_block_lem block_size size align now now' buffer s e later),
        )
      ]
    ]
  where
    contrary : {a : ℕ} → none ≡ some a → ⊥
    contrary h = cc

    unheld :
        (p : ℕ) → (allocate block_size size align now now' buffer s).0 ≡ some p → held p ≡ false
    unheld =
        (allocate-Kept block_size size align z now now' buffer s held
          (Reach-Valid block_size size align z reach) new).1

    returns :
        (a : ℕ) (s' : Pool)
        → allocate block_size size align now now' buffer s ≡ take_slot (some a) s'
        → (p : ℕ) × ((allocate block_size size align now now' buffer s).0 ≡ some p)
          × (held p ≡ false)
    returns a s' eq = (a, ap (λ r. r.0) eq, unheld a (ap (λ r. r.0) eq))

-- After any such calls, a block that is added to a pool whose free list is empty makes it the slots of the block in order of their
-- addresses, from the first aligned address behind a pointer on; there is one at least, the last one
-- ends before the end of the block, and no further slot would.
pub add_block_lem :
    (block_size size align : ℕ)
    → Sizes block_size size align
    → {s : Pool} {held : ℕ → Bool} → Reach block_size size align s held
    → (now buffer : ℕ) → Fresh block_size size align s.allocated_blocks buffer
    → s.free.node ≡ none
    → (n : ℕ) × (0 < n)
      × (first_slot block_size size align buffer + n * size < buffer + block_size * size)
      × (buffer + block_size * size ≤ first_slot block_size size align buffer + n * size + size)
      × ((add_block block_size size align now buffer s).max_size ≡ (s.max_size + n) % 2 ^ 64)
      × Chain
          (add_block block_size size align now buffer s).next
          (add_block block_size size align now buffer s).free.node
          (slots size (first_slot block_size size align buffer) n)
unfolding add_block
add_block_lem block_size size align z {s} {held} reach now buffer new empty =
    let v = Reach-Valid block_size size align z reach in
    let e = ends block_size size align z buffer s held new v empty in
    (
      suc (m block_size size align z buffer s held new v empty),
      omega arith,
      e.0,
      e.1,
      e.2,
      chain block_size size align z buffer s held new v empty,
    )
