-- ===== src/StealingQueue/Create.antt =====
-- The constructor of a work-stealing queue, what its observers say, and `pop` before the first push.
use godby.Prelude.{
  ℕ, zero, suc, ◌-◌, ◌^◌, ◌<◌, ◌≡◌, ◌≢◌, refl, sym, ◌∙◌, ap, bit_and, none, some, Option-cases, [],
  arith, length, ◌⊎◌, inl, inr, true, false, ◌==◌, if◌then◌else◌, get_or-replicate,
}
use godby.Prelude.Bits.{power_of_two, two_power_cleared}
use godby.StealingQueue.{StealingQueue, create, empty, size, pop}
use godby.StealingQueue.Slots.{
  word, sub_size, new_array, slot_load, new_array-IsArray, length-window,
}
use godby.StealingQueue.Refine.{IsValid, contents}
use native.Mathlib.Nat.{one-le-pow}

module _ {A : Type 0} (d : A) where
  pub fresh : ℕ → StealingQueue A
  fresh c = record { top = 0; bottom = 0; array = new_array d c; garbage = [] }

  create_test :
      (c : ℕ)
      → c < word
      → 0 < c
      → create d c ≡ (if bit_and c (c - 1) == 0 then some (fresh c) else none)
  unfolding create fresh
  create_test c h pos = let e : sub_size c 1 ≡ c - 1 = omega arith in ground (arith, e)

  create_pos : (c : ℕ) {q : StealingQueue A} → create d c ≡ some q → 0 < c
  unfolding create
  create_pos zero e = cc
  create_pos (suc c) e = omega arith

  create_power : (k : ℕ) → 2 ^ k < word → create d (2 ^ k) ≡ some (fresh (2 ^ k))
  create_power k h =
      create_test (2 ^ k) h (omega (arith, one-le-pow k 2)) ∙ rw (two_power_cleared k)

  create-some :
      (c : ℕ) {q : StealingQueue A}
      → c < word
      → create d c ≡ some q
      → (k : ℕ) × (c ≡ 2 ^ k) × (q ≡ fresh c)
  create-some c {q} h e =
      let (k, two) = power_of_two c pos cleared in
      (
        k,
        two,
        cc (
            sym e
            ∙ ap (create d) two
            ∙ create_power k (omega arith)
            ∙ ap (λ m. some (fresh m)) (sym two)),
      )
    where
      pos : 0 < c
      pos = create_pos c e

      cleared : bit_and c (c - 1) ≡ 0
      cleared = ground (arith, create_test c h pos)

  -- The constructor accepts exactly the powers of two, and then gives a valid queue with no items.
  pub create_lem :
      (c : ℕ)
      → c < word
      → ((create d c ≡ none) × ((k : ℕ) → c ≢ 2 ^ k))
        ⊎ ((k : ℕ) × (q : StealingQueue A) × (c ≡ 2 ^ k)
            × (create d c ≡ some q)
            × IsValid k q
            × (contents d q ≡ []))
  unfolding fresh
  create_lem c h = elim (Option-cases (create d c)) [
    | inl e ↦ inl (e, λ k two. cc (sym e ∙ ap (create d) two ∙ create_power k (omega arith)))
    | inr (q, e) ↦
        let (k, two, same) = create-some c h e in
        inr (k, q, two, e, rw (same, two) (fresh-IsValid k (omega arith)), rw same (fresh_nil c))
  ]
    where
      fresh-IsValid : (k : ℕ) → 2 ^ k < word → IsValid k (fresh (2 ^ k))
      fresh-IsValid k small = record {
        array = new_array-IsArray d k small;
        ordered = omega arith;
        small = omega arith;
        fits = omega arith;
        level = small;
      }

      fresh_nil : (c : ℕ) → contents d (fresh c) ≡ []
      fresh_nil c = refl

  -- On a valid queue `size` is the number of items, and `empty` holds exactly when there is none.
  pub size_lem :
      (k : ℕ) (q : StealingQueue A)
      → IsValid k q
      → (size d q ≡ length (contents d q)) × (empty d q ≡ (length (contents d q) == 0))
  unfolding size empty
  size_lem k q v =
      ground (arith, v.ordered, v.small, length-window d q.array q.top (q.bottom - q.top))

  -- On a queue just constructed, which is empty, `pop` returns a default item instead of nothing, and
  -- leaves a queue that reports 2 ^ 64 - 1 items.
  pub pop-create :
      (c : ℕ) {q : StealingQueue A}
      → c < word
      → create d c ≡ some q
      → (empty d q ≡ true)
        × ((pop d q).0 ≡ some d)
        × (size d (pop d q).1 ≡ word - 1)
        × (empty d (pop d q).1 ≡ false)
  unfolding fresh empty pop size slot_load new_array
  pop-create c {q} h e =
      let (k, two, same) = create-some c h e in
      rw same (refl, ap some (get_or-replicate c _ d), refl, refl)
