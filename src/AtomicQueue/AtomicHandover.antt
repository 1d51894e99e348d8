-- ===== src/AtomicQueue/AtomicHandover.antt =====
-- An atomic element hands over what is stored in it, in order and once each.
use godby.Prelude.{
  ℕ, ◌≡◌, ◌≢◌, refl, sym, ◌∙◌, ap, subst, Bool, true, false, Option, none, some, List, ◌∷◌, ◌++◌,
  arith, inl, inr, update, ◌==◌, ==_iff, Bool-cases, if◌then◌else◌,
}
use godby.AtomicQueue.Atomic.{
  Worker, idle, pushing, seen_nil, popping, seen, Element, set_worker, store, take, push_turn,
  pop_turn, access, Step, push, pop, run, spurious, Reach, begin, next, held,
}

module _ {A : Type 0} (spsc : Bool) where
  -- What a thread relies on.
  abbrev Fits : ℕ → Option A → Worker A → Type 0
  Fits t v idle = Unit
  Fits t v (pushing x) = spsc ≡ true → t ≡ 0
  Fits t v (seen_nil x) = (spsc ≡ true) × (t ≡ 0) × (v ≡ none)
  Fits t v popping = spsc ≡ true → t ≡ 1
  Fits t v (seen x) = (spsc ≡ true) × (t ≡ 1) × (v ≡ some x)

  record Valid (s : Element A) : Type 0 where
    pub fits : (t : ℕ) → Fits t s.value (s.worker t)
    pub items : s.pushed ≡ held s.value ++ s.popped

  -- A thread moves on, where what the others rely on still holds.
  moved-Valid :
      (t : ℕ) (p : Worker A) (v : Option A) (worker : ℕ → Worker A) (l m : List A)
      → ((u : ℕ) → t ≢ u → Fits u v (worker u))
      → Fits t v p
      → l ≡ held v ++ m
      → Valid (record { value = v; worker = update worker t p; pushed = l; popped = m })
  moved-Valid t p v worker l m others own items = record {
    fits = λ u. elim (Bool-cases (t == u)) [
      | inl same ↦
          subst (λ q. Fits u v q) (sym (moved u same))
            (subst (λ x. Fits x v p) ((==_iff t u).0 same) own)
      | inr other ↦
          subst (λ q. Fits u v q) (sym (kept u other)) (others u (λ same. differ u other same))
    ];
    items = items;
  }
    where
      moved : (u : ℕ) → (t == u) ≡ true → update worker t p u ≡ p
      moved u same = rw same refl

      kept : (u : ℕ) → (t == u) ≡ false → update worker t p u ≡ worker u
      kept u other = rw other refl

      differ : (u : ℕ) → (t == u) ≡ false → t ≡ u → ⊥
      differ u other same = ground (arith, (==_iff t u).1 same)

  -- Another thread does not rely on the value if it can not be the other of two.
  Fits-other :
      (u : ℕ) (v v' : Option A) (p : Worker A)
      → (spsc ≡ true → u ≡ 0 → v ≡ none → ⊥)
      → (spsc ≡ true → u ≡ 1 → (x : A) → v ≡ some x → ⊥)
      → Fits u v p
      → Fits u v' p
  Fits-other u v v' idle no_push no_pop f = tt
  Fits-other u v v' (pushing x) no_push no_pop f = f
  Fits-other u v v' (seen_nil x) no_push no_pop f = absurd (no_push f.0 f.1 f.2)
  Fits-other u v v' popping no_push no_pop f = f
  Fits-other u v v' (seen x) no_push no_pop f = absurd (no_pop f.0 f.1 x f.2)

  none-some : {x : A} {v : Option A} → v ≡ none → v ≡ some x → ⊥
  none-some e f = cc

  -- A value is stored where there is none, by the only thread that pushes or by a compare-exchange.
  store-Valid :
      (t : ℕ) (x : A) (s : Element A)
      → s.value ≡ none
      → (spsc ≡ true → t ≡ 0)
      → Valid s
      → Valid (store s t x)
  store-Valid t x s nil only v =
      moved-Valid t idle (some x) s.worker (x ∷ s.pushed) s.popped
        (λ u ne.
          Fits-other u s.value (some x) (s.worker u) (λ w z n. ne (only w ∙ sym z))
            (λ w z y h. none-some nil h) (v.fits u))
        tt (ap (λ l. x ∷ l) (v.items ∙ ap (λ o. held o ++ s.popped) nil))

  take-Valid :
      (t : ℕ) (x : A) (s : Element A)
      → s.value ≡ some x
      → (spsc ≡ true → t ≡ 1)
      → Valid s
      → Valid (take s t x)
  take-Valid t x s full only v =
      moved-Valid t idle none s.worker s.pushed (x ∷ s.popped)
        (λ u ne.
          Fits-other u s.value none (s.worker u) (λ w z n. none-some n full)
            (λ w z y h. ne (only w ∙ sym z)) (v.fits u))
        tt (v.items ∙ ap (λ o. held o ++ s.popped) full)

  -- A thread moves on without a change of the value.
  step-Valid :
      (t : ℕ) (p : Worker A) (s : Element A) → Fits t s.value p → Valid s → Valid (set_worker s t p)
  step-Valid t p s own v =
      moved-Valid t p s.value s.worker s.pushed s.popped (λ u ne. v.fits u) own v.items

  push_turn-Valid :
      (t : ℕ) (x : A) (o : Option A) (s : Element A)
      → s.value ≡ o
      → (spsc ≡ true → t ≡ 0)
      → Valid s
      → Valid (push_turn spsc t x o s)
  push_turn-Valid t x (some y) s at only v = v
  push_turn-Valid t x none s at only v = elim (Bool-cases spsc) [
    | inl single ↦
        subst (λ b. Valid (if b then set_worker s t (seen_nil x) else store s t x)) (sym single)
          (step-Valid t (seen_nil x) s (single, only single, at) v)
    | inr many ↦
        subst (λ b. Valid (if b then set_worker s t (seen_nil x) else store s t x)) (sym many)
          (store-Valid t x s at only v)
  ]

  pop_turn-Valid :
      (t : ℕ) (o : Option A) (s : Element A)
      → s.value ≡ o
      → (spsc ≡ true → t ≡ 1)
      → Valid s
      → Valid (pop_turn spsc t o s)
  pop_turn-Valid t none s at only v = v
  pop_turn-Valid t (some y) s at only v = elim (Bool-cases spsc) [
    | inl single ↦
        subst (λ b. Valid (if b then set_worker s t (seen y) else take s t y)) (sym single)
          (step-Valid t (seen y) s (single, only single, at) v)
    | inr many ↦
        subst (λ b. Valid (if b then set_worker s t (seen y) else take s t y)) (sym many)
          (take-Valid t y s at only v)
  ]

  access-Valid :
      (t : ℕ) (p : Worker A) (s : Element A)
      → Fits t s.value p
      → Valid s
      → Valid (access spsc t p s)
  unfolding access
  access-Valid t idle s f v = v
  access-Valid t (pushing x) s f v = push_turn-Valid t x s.value s refl f v
  access-Valid t (seen_nil x) s f v = store-Valid t x s f.2 (λ w. f.1) v
  access-Valid t popping s f v = pop_turn-Valid t s.value s refl f v
  access-Valid t (seen x) s f v = take-Valid t x s f.2 (λ w. f.1) v

  Step-Valid : {s s' : Element A} → Step spsc s s' → Valid s → Valid s'
  Step-Valid {s} (push t x h only) v = step-Valid t (pushing x) s only v
  Step-Valid {s} (pop t h only) v = step-Valid t popping s only v
  Step-Valid {s} (run t) v = access-Valid t (s.worker t) s (v.fits t) v
  Step-Valid spurious v = v

  Reach-Valid : {s : Element A} → Reach spsc s → Valid s
  Reach-Valid begin = record { fits = λ t. tt; items = refl }
  Reach-Valid (next before step) = Step-Valid step (Reach-Valid before)

-- However the pushes and pops of an element of AtomicQueue interleave, those of any number of threads, or with
-- SPSC those of one thread that pushes and one that pops: what has been popped is what has been pushed,
-- in the same order and once each, but for the last item while the element is not NIL, which is then in
-- it.
pub atomic_handover :
    {A : Type 0} (spsc : Bool) {s : Element A} → Reach spsc s → s.pushed ≡ held s.value ++ s.popped
atomic_handover spsc reach = (Reach-Valid spsc reach).items
