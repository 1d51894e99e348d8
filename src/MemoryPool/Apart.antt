-- ===== src/MemoryPool/Apart.antt =====
-- The addresses of the slots: two slots lie apart, and each is aligned.
use godby.Prelude.{
  ℕ, ◌+◌, ◌*◌, ◌/◌, ◌%◌, ◌^◌, ◌≤◌, ◌<◌, ◌≡◌, ◌≢◌, sym, ◌∙◌, ap, ap₂, subst, Bool, true, List, arith,
  inl, inr, ◌⊎◌, dec_lt,
}
use godby.Prelude.Chain.{mem}
use godby.MemoryPool.{Pool, pointer_size, first_slot}
use godby.MemoryPool.Layout.{pad_pointer_lem, mul_mono}
use godby.MemoryPool.Slots.{Sizes, Slot, Valid}
use native.Mathlib.Nat.{add-mul-mod_self_left, mod-add-div, mul-le-mul_right, mul_left_comm}

module _ (block_size size align : ℕ) (z : Sizes block_size size align) where
  -- Two slots are the same or do not overlap.
  pub slots_apart :
      {s : Pool} {held : ℕ → Bool}
      → Valid block_size size align s held
      → (p q : ℕ) → Slot block_size size align s.allocated_blocks p
      → Slot block_size size align s.allocated_blocks q
      → p ≢ q
      → (p + size ≤ q) ⊎ (q + size ≤ p)
  slots_apart v p q a b ne = elim (v.disjoint a.buffer b.buffer a.block b.block) [
    | inl e ↦ in_block e
    | inr apart ↦ elim apart [
      | inl h ↦ inl (omega (arith, h, a.fits, b.at))
      | inr h ↦ inr (omega (arith, h, b.fits, a.at))
    ]
  ]
    where
      in_block : a.buffer ≡ b.buffer → (p + size ≤ q) ⊎ (q + size ≤ p)
      in_block e = elim (dec_lt a.index b.index) [
        | yes h ↦ inl (omega (arith, same_start e, a.at, b.at, mul_mono a.index b.index size h))
        | no h ↦ elim (dec_lt b.index a.index) [
          | yes h' ↦ inr (omega (arith, same_start e, a.at, b.at, mul_mono b.index a.index size h'))
          | no h' ↦
              absurd (ne (a.at ∙ ap₂ (λ x i. x + i * size) (same_start e) (omega arith) ∙ sym b.at))
        ]
      ]
        where
          same_start :
              a.buffer ≡ b.buffer
              → first_slot block_size size align a.buffer
                ≡ first_slot block_size size align b.buffer
          same_start e = ap (first_slot block_size size align) e

  pub aligned :
      {blocks : List ℕ} (p : ℕ)
      → ((b : ℕ) → mem b blocks ≡ true → b + block_size * size < 2 ^ 64)
      → Slot block_size size align blocks p
      → p % align ≡ 0
  aligned p places a =
      subst (λ x. x % align ≡ 0) (sym (a.at ∙ ap (λ y. from + y) multiple))
        (add-mul-mod_self_left from align (a.index * (size / align)) ∙ start_aligned)
    where
      from : ℕ
      from = first_slot block_size size align a.buffer

      start_aligned : from % align ≡ 0
      start_aligned =
          pad_pointer_lem (a.buffer + pointer_size) align (2 ^ 64 / align)
            (omega (arith, places a.buffer a.block, mul-le-mul_right size z.room, z.wide))
            z.positive (omega (arith, z.small, z.bounded)) z.aligned

      multiple : a.index * size ≡ align * (a.index * (size / align))
      multiple =
          ap (λ n. a.index * n)
            (sym (mod-add-div size align) ∙ ap (λ r. r + align * (size / align)) z.whole)
          ∙ ap (λ n. a.index * n) {x = 0 + align * (size / align)} (omega arith)
          ∙ mul_left_comm a.index align (size / align)
