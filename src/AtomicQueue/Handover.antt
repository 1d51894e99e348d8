-- ===== src/AtomicQueue/Handover.antt =====
-- An element hands over what is stored in it, in order and once each.
use godby.Prelude.{
  ℕ, ◌≡◌, ◌≢◌, refl, sym, ◌∙◌, ap, subst, Bool, true, false, List, ◌∷◌, ◌++◌, arith, inl, inr,
  update, ◌==◌, ==_iff, Bool-cases,
}
use godby.AtomicQueue.{
  State, empty, storing, stored, loading, Worker, idle, pushing, filling, filled, popping, taking,
  taken, Slot, set_worker, claim_push, claim_pop, access, Step, push, pop, run, spurious, Reach,
  begin, next, held,
}

abbrev rests : State → Bool
rests empty = true
rests storing = false
rests stored = true
rests loading = false

module _ {A : Type 0} where
  -- A thread that has won a compare-exchange and not yet given the element back.
  abbrev pub busy : Worker A → Bool
  busy idle = false
  busy (pushing x) = false
  busy (filling x) = true
  busy (filled x) = true
  busy popping = false
  busy taking = true
  busy (taken x) = true

  abbrev Fits : State → A → Worker A → Type 0
  Fits q e idle = Unit
  Fits q e (pushing x) = Unit
  Fits q e (filling x) = q ≡ storing
  Fits q e (filled x) = (q ≡ storing) × (e ≡ x)
  Fits q e popping = Unit
  Fits q e taking = q ≡ loading
  Fits q e (taken x) = (q ≡ loading) × (e ≡ x)

  record Valid (s : Slot A) : Type 0 where
    pub quiet : rests s.state ≡ true → (t : ℕ) → busy (s.worker t) ≡ false
    pub alone : (t u : ℕ) → busy (s.worker t) ≡ true → busy (s.worker u) ≡ true → t ≡ u
    pub fits : (t : ℕ) → Fits s.state s.element (s.worker t)
    pub items : s.pushed ≡ held s.state s.element ++ s.popped

  calm : (q : State) (e : A) (p : Worker A) → busy p ≡ false → Fits q e p
  calm q e idle h = tt
  calm q e (pushing x) h = tt
  calm q e (filling x) h = absurd cc
  calm q e (filled x) h = absurd cc
  calm q e popping h = tt
  calm q e taking h = absurd cc
  calm q e (taken x) h = absurd cc

  -- A thread makes an access while no other is busy.
  replaced :
      (s : Slot A) (t : ℕ) (p : Worker A) (q : State) (e : A) (l m : List A)
      → ((u : ℕ) → t ≢ u → busy (s.worker u) ≡ false)
      → Fits q e p
      → (rests q ≡ true → busy p ≡ false)
      → l ≡ held q e ++ m
      → Valid
          (record { state = q; element = e; worker = update s.worker t p; pushed = l; popped = m })
  replaced s t p q e l m others fits_p rest_p items = record {
    quiet = λ r u. elim (Bool-cases (t == u)) [
      | inl same ↦ rw same (rest_p r)
      | inr other ↦ rw other (others u (apart u other))
    ];
    alone = λ u v hu hv. sym (only u hu) ∙ only v hv;
    fits = λ u. elim (Bool-cases (t == u)) [
      | inl same ↦ rw same fits_p
      | inr other ↦ rw other (calm q e (s.worker u) (others u (apart u other)))
    ];
    items = items;
  }
    where
      apart : (u : ℕ) → (t == u) ≡ false → t ≢ u
      apart u other same = ground (arith, (==_iff t u).1 same)

      only : (u : ℕ) → busy (update s.worker t p u) ≡ true → t ≡ u
      only u h = elim (Bool-cases (t == u)) [
        | inl same ↦ (==_iff t u).0 same
        | inr other ↦ absurd (contrary u other h)
      ]
        where
          contrary : (u : ℕ) → (t == u) ≡ false → busy (update s.worker t p u) ≡ true → ⊥
          contrary u other h = ground (arith, others u (apart u other))

  -- A thread that is not busy begins a call.
  called-Valid :
      (s : Slot A) (t : ℕ) (p : Worker A)
      → s.worker t ≡ idle
      → busy p ≡ false
      → Valid s
      → Valid (set_worker s t p)
  called-Valid s t p was_idle calm_p v = record {
    quiet = λ r u. as_before u ∙ v.quiet r u;
    alone = λ u w hu hw. v.alone u w (sym (as_before u) ∙ hu) (sym (as_before w) ∙ hw);
    fits = λ u. elim (Bool-cases (t == u)) [
      | inl same ↦ rw same (calm s.state s.element p calm_p)
      | inr other ↦ rw other (v.fits u)
    ];
    items = v.items;
  }
    where
      as_before : (u : ℕ) → busy (update s.worker t p u) ≡ busy (s.worker u)
      as_before u = elim (Bool-cases (t == u)) [
        | inl same ↦
            rw same (
              calm_p ∙ (sym (ap busy was_idle) ∙ ap (λ x. busy (s.worker x)) ((==_iff t u).0 same)))
        | inr other ↦ rw other refl
      ]

  -- While a thread is busy, no other is.
  others_calm :
      (s : Slot A) (t : ℕ)
      → Valid s
      → busy (s.worker t) ≡ true
      → (u : ℕ) → t ≢ u
      → busy (s.worker u) ≡ false
  others_calm s t v h u ne = elim (Bool-cases (busy (s.worker u))) [
    | inl b ↦ absurd (ne (v.alone t u h b))
    | inr c ↦ c
  ]

  Fits-at :
      (s : Slot A) (t : ℕ) (p : Worker A) → Valid s → s.worker t ≡ p → Fits s.state s.element p
  Fits-at s t p v e = subst (Fits s.state s.element) e (v.fits t)

  claim_push-Valid :
      (s : Slot A) (t : ℕ) (x : A) (q : State) → s.state ≡ q → Valid s → Valid (claim_push s t x q)
  claim_push-Valid s t x empty h v =
      replaced s t (filling x) storing s.element s.pushed s.popped (λ u ne. v.quiet (ap rests h) u)
        refl (λ r. absurd cc) (v.items ∙ ap (λ q. held q s.element ++ s.popped) h)
  claim_push-Valid s t x storing h v = v
  claim_push-Valid s t x stored h v = v
  claim_push-Valid s t x loading h v = v

  claim_pop-Valid :
      (s : Slot A) (t : ℕ) (q : State) → s.state ≡ q → Valid s → Valid (claim_pop s t q)
  claim_pop-Valid s t stored h v =
      replaced s t taking loading s.element s.pushed s.popped (λ u ne. v.quiet (ap rests h) u) refl
        (λ r. absurd cc) (v.items ∙ ap (λ q. held q s.element ++ s.popped) h)
  claim_pop-Valid s t empty h v = v
  claim_pop-Valid s t storing h v = v
  claim_pop-Valid s t loading h v = v

  access-Valid :
      (s : Slot A) (t : ℕ) (p : Worker A) → s.worker t ≡ p → Valid s → Valid (access t p s)
  unfolding access
  access-Valid s t idle e v = v
  access-Valid s t (pushing x) e v = claim_push-Valid s t x s.state refl v
  access-Valid s t (filling x) e v =
      let h = Fits-at s t (filling x) v e in
      replaced s t (filled x) s.state x s.pushed s.popped (others_calm s t v (ap busy e)) (h, refl)
        (λ r. sym r ∙ ap rests h)
        (v.items
          ∙ (ap (λ q. held q s.element ++ s.popped) h ∙ sym (ap (λ q. held q x ++ s.popped) h)))
  access-Valid s t (filled x) e v =
      let (h, same) = Fits-at s t (filled x) v e in
      replaced s t idle stored s.element (x ∷ s.pushed) s.popped (others_calm s t v (ap busy e)) tt
        (λ r. refl)
        (ap (λ l. x ∷ l) (v.items ∙ ap (λ q. held q s.element ++ s.popped) h)
          ∙ ap (λ y. y ∷ s.popped) (sym same))
  access-Valid s t popping e v = claim_pop-Valid s t s.state refl v
  access-Valid s t taking e v =
      let h = Fits-at s t taking v e in
      replaced s t (taken s.element) s.state s.element s.pushed s.popped
        (others_calm s t v (ap busy e)) (h, refl) (λ r. sym r ∙ ap rests h) v.items
  access-Valid s t (taken x) e v =
      let (h, same) = Fits-at s t (taken x) v e in
      replaced s t idle empty s.element s.pushed (x ∷ s.popped) (others_calm s t v (ap busy e)) tt
        (λ r. refl)
        (v.items ∙ (ap (λ q. held q s.element ++ s.popped) h ∙ ap (λ y. y ∷ s.popped) same))

  Step-Valid : {s s' : Slot A} → Step s s' → Valid s → Valid s'
  Step-Valid {s} (push t x h) v = called-Valid s t (pushing x) h refl v
  Step-Valid {s} (pop t h) v = called-Valid s t popping h refl v
  Step-Valid {s} (run t) v = access-Valid s t (s.worker t) refl v
  Step-Valid spurious v = v

  Reach-Valid : {d : A} {s : Slot A} → Reach d s → Valid s
  Reach-Valid begin = record {
    quiet = λ r t. refl;
    alone = λ t u h. absurd cc;
    fits = λ t. tt;
    items = refl;
  }
  Reach-Valid (next before step) = Step-Valid step (Reach-Valid before)

  -- However the pushes and pops of an element interleave: what has been popped is what has been pushed,
  -- in the same order and once each, but for the last item while the state is STORED or LOADING, which
  -- is then in the element; and at most one thread has claimed the element.
  pub handover :
      {d : A} {s : Slot A}
      → Reach d s
      → (s.pushed ≡ held s.state s.element ++ s.popped)
        × ((t u : ℕ) → busy (s.worker t) ≡ true → busy (s.worker u) ≡ true → t ≡ u)
  handover reach = let v = Reach-Valid reach in (v.items, v.alone)
