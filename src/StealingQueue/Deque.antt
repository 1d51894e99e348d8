-- ===== src/StealingQueue/Deque.antt =====
-- What a work-stealing queue promises: a list whose owner works at its end while thieves take from
-- its front; and that the queue keeps the promise for every sequence of calls.
use godby.Prelude.{
  ℕ, suc, ◌+◌, ◌-◌, ◌^◌, ◌≤◌, ◌<◌, ◌≡◌, refl, sym, ◌∙◌, ap, Option, none, some, List, [], ◌∷◌, ◌++◌,
  arith, length, ◌⊎◌, inl, inr,
}
use godby.StealingQueue.{StealingQueue, push, pop, steal}
use godby.StealingQueue.Slots.{slot_load, window}
use godby.StealingQueue.Refine.{
  IsValid, contents, push_lem, pop-empty, pop_one, pop_many, steal-empty, steal-some, window-snoc,
}

module _ {A : Type 0} where
  unfoldable pub pop_back : List A → Option A × List A
  pop_back [] = (none, [])
  pop_back (x ∷ []) = (some x, [])
  pop_back (x ∷ y ∷ l) = let (r, rest) = pop_back (y ∷ l) in (r, x ∷ rest)

  unfoldable pub pop_front : List A → Option A × List A
  pop_front [] = (none, [])
  pop_front (x ∷ l) = (some x, l)

  pop_back-snoc : (l : List A) (x : A) → pop_back (l ++ x ∷ []) ≡ (some x, l)
  unfolding pop_back
  pop_back-snoc [] x = refl
  pop_back-snoc (y ∷ []) x = refl
  pop_back-snoc (y ∷ z ∷ l) x =
      ap (λ (p : Option A × List A). (p.0, y ∷ p.1)) (pop_back-snoc (z ∷ l) x)

-- A call and what it asks for.
pub data Call (A : Type 0) : Type 0 where
  put : A → Call A
  take : Call A
  rob : Call A

-- A client's calls in order, with what each returns.
module _ {A : Type 0} (d : A) where
  unfoldable pub run : StealingQueue A → List (Call A) → List (Option A)
  run q [] = []
  run q (put x ∷ cs) = none ∷ run (push d q x) cs
  run q (take ∷ cs) = let (r, q') = pop d q in r ∷ run q' cs
  run q (rob ∷ cs) = let (r, q') = steal d q in r ∷ run q' cs

  unfoldable pub run_deque : List A → List (Call A) → List (Option A)
  run_deque l [] = []
  run_deque l (put x ∷ cs) = none ∷ run_deque (l ++ x ∷ []) cs
  run_deque l (take ∷ cs) = let (r, l') = pop_back l in r ∷ run_deque l' cs
  run_deque l (rob ∷ cs) = let (r, l') = pop_front l in r ∷ run_deque l' cs

  -- What a call of `pop` or `steal` leaves behind.
  record Took (k : ℕ) (q : StealingQueue A) (spec : Option A × List A)
      (out : Option A × StealingQueue A) : Type 0 where
    valid : IsValid k out.1
    same : (out.0, contents d out.1) ≡ spec
    kept : out.1.bottom ≤ q.bottom
    started : 0 < q.bottom → 0 < out.1.bottom

  shrink :
      (k : ℕ) (q : StealingQueue A) (t b : ℕ)
      → IsValid k q
      → q.top ≤ t
      → t ≤ b
      → b ≤ q.bottom
      → IsValid k (record q { top = t; bottom = b })
  shrink k q t b v lo le hi = record {
    array = v.array;
    ordered = le;
    small = omega (arith, v.small);
    fits = omega (arith, v.fits);
    level = v.level;
  }

  contents-nil : (q : StealingQueue A) → q.top ≡ q.bottom → contents d q ≡ []
  contents-nil q e = ap (window d q.array q.top) {y = 0} (omega arith)

  contents_back :
      (q : StealingQueue A) (b : ℕ)
      → q.bottom ≡ b + 1
      → q.top ≤ b
      → contents d q ≡ window d q.array q.top (b - q.top) ++ slot_load d q.array b ∷ []
  contents_back q b e le =
      ap (window d q.array q.top) {y = suc (b - q.top)} (omega arith)
      ∙ window-snoc d q.array q.top (b - q.top) b (omega arith)

  contents_front :
      (q : StealingQueue A)
      → q.top < q.bottom
      → contents d q
        ≡ slot_load d q.array q.top ∷ window d q.array (q.top + 1) (q.bottom - (q.top + 1))
  contents_front q lt = ap (window d q.array q.top) {y = suc (q.bottom - (q.top + 1))} (omega arith)

  pop-Took :
      (k : ℕ) (q : StealingQueue A)
      → IsValid k q
      → 0 < q.bottom
      → Took k q (pop_back (contents d q)) (pop d q)
  unfolding pop_back
  pop-Took k q v pos = elim (cases q.top q.bottom v.ordered) [
    | inl e ↦ rw (pop-empty d q v.small e pos) (record {
      valid = v;
      same = ap (λ l. (none, l)) (contents-nil q e) ∙ sym (ap pop_back (contents-nil q e));
      kept = omega arith;
      started = λ h. h;
    })
    | inr (inl e) ↦ rw (pop_one d q v.small e) (record {
      valid = shrink k q q.bottom q.bottom v v.ordered (omega arith) (omega arith);
      same =
          ap (λ l. (some (slot_load d q.array q.top), l))
            (contents-nil (record q { top = q.bottom }) refl
              ∙ ap (window d q.array q.top) {x = 0} {y = q.top - q.top} (omega arith))
          ∙ back q.top e (omega arith);
      kept = omega arith;
      started = λ h. h;
    })
    | inr (inr lt) ↦ rw (pop_many d q v.small lt) (record {
      valid = shrink k q q.top (q.bottom - 1) v (omega arith) (omega arith) (omega arith);
      same = back (q.bottom - 1) (omega arith) (omega arith);
      kept = omega arith;
      started = λ h. omega arith;
    })
  ]
    where
      cases : (t b : ℕ) → t ≤ b → (t ≡ b) ⊎ (b ≡ t + 1) ⊎ (t + 1 < b)
      cases t b h = ground arith

      back :
          (b : ℕ)
          → q.bottom ≡ b + 1
          → q.top ≤ b
          → ◌≡◌ {A = Option A × List A}
              (some (slot_load d q.array b), window d q.array q.top (b - q.top))
              (pop_back (contents d q))
      back b e le = sym (ap pop_back (contents_back q b e le) ∙ pop_back-snoc _ _)

  steal-Took :
      (k : ℕ) (q : StealingQueue A) → IsValid k q → Took k q (pop_front (contents d q)) (steal d q)
  unfolding pop_front
  steal-Took k q v = elim (cases q.top q.bottom v.ordered) [
    | inl e ↦ rw (steal-empty d q v.small e) (record {
      valid = v;
      same = ap (λ l. (none, l)) (contents-nil q e) ∙ sym (ap pop_front (contents-nil q e));
      kept = omega arith;
      started = λ h. h;
    })
    | inr lt ↦ rw (steal-some d q v.small lt) (record {
      valid = shrink k q (q.top + 1) q.bottom v (omega arith) (omega arith) (omega arith);
      same = sym (ap pop_front (contents_front q lt));
      kept = omega arith;
      started = λ h. h;
    })
  ]
    where
      cases : (t b : ℕ) → t ≤ b → (t ≡ b) ⊎ (t < b)
      cases t b h = ground arith

  -- No sequence of calls tells a valid queue that has been pushed to at least once from the deque of
  -- its items, as long as the indices stay below 2 ^ 63.
  pub run_refines :
      (cs : List (Call A)) (k : ℕ) (q : StealingQueue A)
      → IsValid k q
      → 0 < q.bottom
      → q.bottom + length cs < 2 ^ 63
      → run q cs ≡ run_deque (contents d q) cs
  unfolding run run_deque
  run_refines [] k q v pos room = refl
  run_refines (put x ∷ cs) k q v pos room =
      let (n, valid, c, _, b) = push_lem d k q x v (omega arith) in
      ap (λ l. none ∷ l)
        (run_refines cs n (push d q x) valid (omega arith) (omega arith)
          ∙ ap (λ l. run_deque l cs) c)
  run_refines (take ∷ cs) k q v pos room =
      let t = pop-Took k q v pos in
      ap (λ l. (pop d q).0 ∷ l)
        (run_refines cs k (pop d q).1 t.valid (t.started pos) (omega (arith, t.kept)))
      ∙ ap (λ (p : Option A × List A). p.0 ∷ run_deque p.1 cs) t.same
  run_refines (rob ∷ cs) k q v pos room =
      let t = steal-Took k q v in
      ap (λ l. (steal d q).0 ∷ l)
        (run_refines cs k (steal d q).1 t.valid (t.started pos) (omega (arith, t.kept)))
      ∙ ap (λ (p : Option A × List A). p.0 ∷ run_deque p.1 cs) t.same
