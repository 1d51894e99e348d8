-- ===== src/StealingQueue/Threads/Moved.antt =====
-- What the steps of the owner share: the weight of the items left, and the case of a step that
-- writes at most the two indices.
use godby.Prelude.{ℕ, suc, ◌+◌, ◌-◌, ◌^◌, ◌≤◌, ◌<◌, ◌≡◌, ◌∙◌, ap, List, [], ◌∷◌, ◌++◌, arith}
use godby.StealingQueue.{StealingQueue}
use godby.StealingQueue.Slots.{slot_load, window}
use godby.StealingQueue.Refine.{window-snoc}
use godby.StealingQueue.Threads.{Owner, Thief, System}
use godby.StealingQueue.Threads.Invariant.{
  sum_of, end_of, in_hand, OwnerAt, Inv, Frame-ThiefAt, Frame-indices,
}

unfoldable pub at :
    {A : Type 0} → (ℕ → Thief A) → List A → List A → StealingQueue A → Owner A → System A
at th ps rs q p = record { queue = q; owner = p; thief = th; pushed = ps; returned = rs }

module _ {A : Type 0} (d : A) (w : A → ℕ) where
  sum_of-append : (l m : List A) → sum_of w (l ++ m) ≡ sum_of w l + sum_of w m
  sum_of-append [] m = omega arith
  sum_of-append (x ∷ l) m = omega (arith, sum_of-append l m)

  -- The items from `t` on, up to `e`.
  abbrev pub rest : StealingQueue A → ℕ → ℕ
  rest q e = sum_of w (window d q.array q.top (e - q.top))

  pub rest_back :
      (q : StealingQueue A) (e : ℕ)
      → q.top ≤ e
      → rest q (e + 1) ≡ rest q e + w (slot_load d q.array e)
  rest_back q e le =
      ap (λ n. sum_of w (window d q.array q.top n)) {y = suc (e - q.top)} (omega arith)
      ∙ ap (sum_of w) (window-snoc d q.array q.top (e - q.top) e (omega arith))
      ∙ sum_of-append (window d q.array q.top (e - q.top)) (slot_load d q.array e ∷ [])
      ∙ omega arith

  pub rest_front :
      (q : StealingQueue A) (e b : ℕ)
      → q.top < e
      → rest q e ≡ w (slot_load d q.array q.top) + rest (record q { top = q.top + 1; bottom = b }) e
  rest_front q e b lt =
      ap (λ n. sum_of w (window d q.array q.top n)) {y = suc (e - (q.top + 1))} (omega arith)

  pub rest-nil : (q : StealingQueue A) (e : ℕ) → e ≡ q.top → rest q e ≡ 0
  rest-nil q e h = ap (λ n. sum_of w (window d q.array q.top n)) {y = 0} (omega arith)

  module _ (th : ℕ → Thief A) (ps rs : List A) where
    -- A step of the owner that writes at most the indices.
    pub moved :
        (q : StealingQueue A) (p p' : Owner A) (t b : ℕ) (ps' rs' : List A)
        (v : Inv d w (at th ps rs q p))
        → let q' = record q { top = t; bottom = b } in
          t ≤ end_of q' p'
          → end_of q' p' ≤ t + 2 ^ v.level
          → end_of q' p' < 2 ^ 63
          → OwnerAt d v.level q' p'
          → q.top ≤ t
          → (t ≡ q.top → q.top < end_of q p → q.top < end_of q' p')
          → sum_of w ps' ≡ sum_of w rs' + in_hand w p' + rest q' (end_of q' p')
          → Inv d w (record { queue = q'; owner = p'; thief = th; pushed = ps'; returned = rs' })
    unfolding at
    moved q p p' t b ps' rs' v ordered fits small own le still kept = record {
      level = v.level;
      array = v.array;
      room = v.room;
      ordered = ordered;
      fits = omega arith;
      small = small;
      at_owner = own;
      at_thief = λ i. Frame-ThiefAt d (Frame-indices d q t b _ _ le still) (th i) (v.at_thief i);
      kept = kept;
    }
