-- ===== src/MemoryPool/FreeList.antt =====
-- The free list: the slots that are linked from its head.
use godby.Prelude.{
  ℕ, zero, suc, ◌+◌, ◌*◌, ◌<◌, ◌≡◌, refl, sym, subst, true, false, Option, none, some, arith, inl,
  inr, ◌==◌, ==_iff, Bool-cases,
}
use godby.Prelude.Chain.{mem, Unique}
use godby.Prelude.Linked.{Chain}
use godby.MemoryPool.Layout.{slots}

pub Chain-slots :
    (next : ℕ → Option ℕ) (size a m : ℕ)
    → ((i : ℕ) → i < m → next (a + i * size) ≡ some (a + i * size + size))
    → next (a + m * size) ≡ none
    → Chain next (some a) (slots size a (suc m))
unfolding slots
Chain-slots next size a zero links last =
    (refl, subst (λ p. next p ≡ none) {y = a} (omega arith) last)
Chain-slots next size a (suc m) links last = (
  refl,
  subst (λ o. Chain next o (slots size (a + size) (suc m))) (sym first)
      (Chain-slots next size (a + size) m
        (λ i h.
          subst (λ p. next p ≡ some (p + size)) {x = a + suc i * size} (omega arith)
            (links (suc i) (omega arith)))
        (subst (λ p. next p ≡ none) {x = a + suc m * size} (omega arith) last)),
)
  where
    first : next a ≡ some (a + size)
    first =
        subst (λ p. next p ≡ some (p + size)) {x = a + 0 * size} (omega arith)
          (links 0 (omega arith))

pub mem-slots :
    (size a n q : ℕ) → mem q (slots size a n) ≡ true → (i : ℕ) × (i < n) × (q ≡ a + i * size)
unfolding slots
mem-slots size a zero q h = absurd cc
mem-slots size a (suc n) q h = elim (Bool-cases (a == q)) [
  | inl e ↦ (0, omega arith, omega (arith, (==_iff a q).0 e))
  | inr e ↦
      let (i, lt, eq) = mem-slots size (a + size) n q (ground arith) in
      (suc i, omega arith, omega (arith, eq))
]

pub Unique-slots : (size a n : ℕ) → 0 < size → Unique (slots size a n)
unfolding slots
Unique-slots size a zero pos = tt
Unique-slots size a (suc n) pos = (fresh, Unique-slots size (a + size) n pos)
  where
    fresh : mem a (slots size (a + size) n) ≡ false
    fresh = elim (Bool-cases (mem a (slots size (a + size) n))) [
      | inl h ↦ let (i, lt, eq) = mem-slots size (a + size) n a h in absurd (omega (arith, eq))
      | inr h ↦ h
    ]
