-- ===== src/StealingQueue/Threads/Push.antt =====
-- The owner's steps in `push` keep the invariant, the doubling of a full array included.
use godby.Prelude.{
  ℕ, suc, ◌+◌, ◌-◌, ◌^◌, ◌≤◌, ◌<◌, ◌≡◌, sym, ◌∙◌, ap, ap₂, true, false, List, ◌∷◌, arith, ltb,
  ltb→lt, ltb_false→le, Bool-cases, inl, inr,
}
use godby.StealingQueue.{StealingQueue, is_full, grow}
use godby.StealingQueue.Slots.{
  IsArray, word, add_size, window, slot_store-IsArray, slot_load-slot_store_self, window-slot_store,
  resize, resize_lem, slot_of_window, window_of_slots,
}
use godby.StealingQueue.Threads.{
  Owner, pushing, placing, publishing, Thief, owner_step, after_owner,
}
use godby.StealingQueue.Threads.Invariant.{sum_of, Inv, Frame-ThiefAt, Frame-store, Frame-grow}
use native.Mathlib.Nat.{pow-suc, one-le-pow}
use godby.StealingQueue.Threads.Moved.{rest, rest_back, at, moved}

module _ {A : Type 0} (d : A) (w : A → ℕ) where
  module _ (th : ℕ → Thief A) (ps rs : List A) where
    pub step_placing :
        (q : StealingQueue A) (x : A)
        → Inv d w (at th ps rs q (placing x))
        → Inv d w (after_owner (at th ps rs q (placing x)) (owner_step d q (placing x)))
    unfolding at owner_step
    step_placing q x v =
        let k = v.level in
        record {
          level = k;
          array = slot_store-IsArray d k q.array q.bottom x v.array;
          room = v.room;
          ordered = v.ordered;
          fits = v.fits;
          small = v.small;
          at_owner = (
            v.at_owner.0,
            v.at_owner.1,
            slot_load-slot_store_self d k q.array q.bottom x v.array,
          );
          at_thief = λ i.
              Frame-ThiefAt d (Frame-store d k q x v.array v.ordered v.at_owner.0) (th i)
                (v.at_thief i);
          kept =
              v.kept
              ∙ ap (λ l. sum_of w rs + 0 + sum_of w l)
                  (sym (
                    window-slot_store d k q.array q.bottom x (q.bottom - q.top) q.top v.array
                      (omega (arith, v.ordered)) (omega (arith, v.ordered, v.at_owner.0))));
        }

    pub step_publishing :
        (q : StealingQueue A) (x : A)
        → Inv d w (at th ps rs q (publishing x))
        → Inv d w (after_owner (at th ps rs q (publishing x)) (owner_step d q (publishing x)))
    unfolding at owner_step
    step_publishing q x v =
        moved d w th ps rs q (publishing x) Owner.idle q.top (add_size q.bottom 1) (x ∷ ps) rs v
          (omega arith) (omega arith) (omega arith) tt (omega arith) (λ e h. omega arith)
          (omega (
            arith,
            v.kept,
            rest_back d w q q.bottom v.ordered,
            ap w v.at_owner.2,
            ap (rest d w q) next,
          ))
      where
        next : add_size q.bottom 1 ≡ q.bottom + 1
        next = omega (arith, v.at_owner.1)

    full_test :
        (k : ℕ) (q : StealingQueue A) (t : ℕ)
        → IsArray k q.array
        → 2 ^ k < word
        → t ≤ q.bottom
        → q.bottom < word
        → is_full d q q.bottom t ≡ ltb (2 ^ k - 1) (q.bottom - t)
    unfolding is_full
    full_test k q t v room le small =
        ap₂ ltb (omega (arith, v.capacity, one-le-pow k 2)) (omega arith)

    pub step_pushing :
        (q : StealingQueue A) (x : A) (t : ℕ)
        → Inv d w (at th ps rs q (pushing x t))
        → Inv d w (after_owner (at th ps rs q (pushing x t)) (owner_step d q (pushing x t)))
    unfolding at owner_step grow
    step_pushing q x t v = elim (Bool-cases (is_full d q q.bottom t)) [
      | inl full ↦ rw full (grown full)
      | inr room ↦ rw room (
          moved d w th ps rs q (pushing x t) (placing x) q.top q.bottom ps rs v v.ordered
            (omega (arith, v.fits)) v.small (omega (arith, v.ordered, roomy room), v.at_owner.2)
            (omega arith) (λ _ h. h) v.kept)
    ]
      where
        k : ℕ
        k = v.level

        test : is_full d q q.bottom t ≡ ltb (2 ^ k - 1) (q.bottom - t)
        test =
            full_test k q t v.array v.room (omega (arith, v.ordered, v.at_owner.0))
              (omega (arith, v.small))

        roomy : is_full d q q.bottom t ≡ false → q.bottom - t < 2 ^ k
        roomy room =
            omega (arith, one-le-pow k 2, ltb_false→le (2 ^ k - 1) (q.bottom - t) (sym test ∙ room))

        packed : is_full d q q.bottom t ≡ true → q.bottom - t ≡ 2 ^ k
        packed full = omega (
          arith,
          one-le-pow k 2,
          v.at_owner.1,
          ltb→lt (2 ^ k - 1) (q.bottom - t) (sym test ∙ full),
        )

        grown :
            is_full d q q.bottom t ≡ true
            → Inv d w (record {
              queue = grow d q q.bottom t;
              owner = placing x;
              thief = th;
              pushed = ps;
              returned = rs;
            })
        grown full =
            let (a, same) =
              resize_lem d k q.array q.bottom t v.array doubled
                (omega (arith, v.ordered, v.at_owner.0)) (omega (arith, v.small)) v.at_owner.1 in
            record {
              level = suc k;
              array = a;
              room = doubled;
              ordered = v.ordered;
              fits = omega (arith, v.fits, pow-suc 2 k);
              small = v.small;
              at_owner = (omega (arith, v.fits, pow-suc 2 k, one-le-pow k 2), v.at_owner.2);
              at_thief = λ i.
                  Frame-ThiefAt d
                    (Frame-grow d k q t v.array v.at_owner.0 v.ordered v.small v.at_owner.1 doubled)
                    (th i) (v.at_thief i);
              kept = v.kept ∙ ap (λ l. sum_of w rs + 0 + sum_of w l) (sym (items same));
            }
          where
            doubled : 2 ^ suc k < word
            doubled = omega (arith, packed full, pow-suc 2 k, v.small)

            items :
                window d (resize d q.array q.bottom t) t (q.bottom - t)
                  ≡ window d q.array t (q.bottom - t)
                → window d (resize d q.array q.bottom t) q.top (q.bottom - q.top)
                  ≡ window d q.array q.top (q.bottom - q.top)
            items same = window_of_slots d _ _ (q.bottom - q.top) q.top (λ j le lt.
                slot_of_window d _ _ (q.bottom - t) t j same (omega arith) (omega arith))
