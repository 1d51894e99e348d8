-- ===== src/StealingQueue/Threads/Safety.antt =====
-- What holds in every state that one owner and any number of thieves can reach.
use godby.Prelude.{ℕ, ◌+◌, ◌-◌, ◌^◌, ◌<◌, ◌≡◌, refl, ap, List, [], arith}
use godby.StealingQueue.{StealingQueue}
use godby.StealingQueue.Slots.{word, sub_size, new_array, new_array-IsArray}
use godby.StealingQueue.Refine.{contents}
use godby.StealingQueue.Threads.{
  Owner, pushing, placing, publishing, popping, restoring, Thief, System, owner_step, after_owner,
  Step, Reach, start_push, start_pop, owner, thief, here, next,
}
use godby.StealingQueue.Threads.Invariant.{sum_of, Inv}
use godby.StealingQueue.Threads.Moved.{rest, at, moved}
use godby.StealingQueue.Threads.Pop.{step_popping, step_racing, step_restoring}
use godby.StealingQueue.Threads.Push.{step_placing, step_publishing, step_pushing}
use godby.StealingQueue.Threads.Steal.{step_thief}

module _ {A : Type 0} (d : A) where
  -- A new queue of `c` slots, with no call under way.
  abbrev pub initial : ℕ → System A
  initial c = record {
    queue = record { top = 0; bottom = 0; array = new_array d c; garbage = [] };
    owner = Owner.idle;
    thief = λ i. Thief.idle;
    pushed = [];
    returned = [];
  }

  module _ (w : A → ℕ) where
    Inv-initial : (k : ℕ) → 2 ^ k < word → Inv d w (initial (2 ^ k))
    Inv-initial k h = record {
      level = k;
      array = new_array-IsArray d k h;
      room = h;
      ordered = omega arith;
      fits = omega arith;
      small = omega arith;
      at_owner = tt;
      at_thief = λ i. tt;
      kept = refl;
    }

    Inv-owner :
        (th : ℕ → Thief A) (ps rs : List A) (q : StealingQueue A) (p : Owner A)
        → Inv d w (at th ps rs q p)
        → Inv d w (after_owner (at th ps rs q p) (owner_step d q p))
    unfolding at owner_step
    Inv-owner th ps rs q Owner.idle v = v
    Inv-owner th ps rs q (pushing x t) v = step_pushing d w th ps rs q x t v
    Inv-owner th ps rs q (placing x) v = step_placing d w th ps rs q x v
    Inv-owner th ps rs q (publishing x) v = step_publishing d w th ps rs q x v
    Inv-owner th ps rs q (popping b) v = step_popping d w th ps rs q b v
    Inv-owner th ps rs q (Owner.racing b x) v = step_racing d w th ps rs q b x v
    Inv-owner th ps rs q (restoring b r) v = step_restoring d w th ps rs q b r v

    Inv-start_push :
        (th : ℕ → Thief A) (ps rs : List A) (q : StealingQueue A) (p : Owner A) (x : A)
        → p ≡ Owner.idle
        → q.bottom < 2 ^ 63 - 1
        → Inv d w (at th ps rs q p)
        → Inv d w (at th ps rs q (pushing x q.top))
    unfolding at
    Inv-start_push th ps rs q p x e h v =
        let v' : Inv d w (at th ps rs q Owner.idle) = rw e at v in
        moved d w th ps rs q Owner.idle (pushing x q.top) q.top q.bottom ps rs v' v'.ordered
          (omega (arith, v'.fits)) (omega arith) (omega arith, omega (arith, v'.fits), h)
          (omega arith) (λ _ lt. lt) v'.kept

    Inv-start_pop :
        (th : ℕ → Thief A) (ps rs : List A) (q : StealingQueue A) (p : Owner A)
        → p ≡ Owner.idle
        → 0 < q.bottom
        → Inv d w (at th ps rs q p)
        → let b = sub_size q.bottom 1 in Inv d w (at th ps rs (record q { bottom = b }) (popping b))
    unfolding at
    Inv-start_pop th ps rs q p e h v =
        let v' : Inv d w (at th ps rs q Owner.idle) = rw e at v in
        let back : sub_size q.bottom 1 + 1 ≡ q.bottom = omega (arith, v'.small) in
        moved d w th ps rs q Owner.idle (popping (sub_size q.bottom 1)) q.top (sub_size q.bottom 1)
          ps rs v' (omega (arith, v'.ordered, back)) (omega (arith, v'.fits, back))
          (omega (arith, v'.small, back)) refl (omega arith) (λ _ lt. omega (arith, back))
          (omega (arith, v'.kept, ap (rest d w q) back))

    Step-Inv : {s t : System A} → Step d s t → Inv d w s → Inv d w t
    unfolding at
    Step-Inv {s} (start_push x e h) v =
        Inv-start_push s.thief s.pushed s.returned s.queue s.owner x e h v
    Step-Inv {s} (start_pop e h) v = Inv-start_pop s.thief s.pushed s.returned s.queue s.owner e h v
    Step-Inv {s} owner v = Inv-owner s.thief s.pushed s.returned s.queue s.owner v
    Step-Inv {s} (thief i) v =
        step_thief d w s.thief s.pushed s.returned s.queue s.owner i v (s.thief i) (v.at_thief i)

    Reach-Inv : (k : ℕ) {s : System A} → 2 ^ k < word → Reach d (initial (2 ^ k)) s → Inv d w s
    Reach-Inv k h here = Inv-initial k h
    Reach-Inv k h (next r st) = Step-Inv st (Reach-Inv k h r)

  -- However the owner and the thieves interleave, no item is lost and none is returned twice:
  -- while the owner is between calls, the items returned and the items still in the queue are those
  -- pushed, whatever weight each item is given.
  pub no_item_lost :
      (k : ℕ) (w : A → ℕ) {s : System A}
      → 2 ^ k < word
      → Reach d (initial (2 ^ k)) s
      → s.owner ≡ Owner.idle
      → sum_of w s.pushed ≡ sum_of w s.returned + sum_of w (contents d s.queue)
  no_item_lost k w {s} h r idle =
      quiet s.thief s.pushed s.returned s.queue s.owner idle (Reach-Inv w k h r)
    where
      quiet :
          (th : ℕ → Thief A) (ps rs : List A) (q : StealingQueue A) (p : Owner A)
          → p ≡ Owner.idle
          → Inv d w (record { queue = q; owner = p; thief = th; pushed = ps; returned = rs })
          → sum_of w ps ≡ sum_of w rs + sum_of w (contents d q)
      quiet th ps rs q p e v =
          let v' : Inv d w
              (record { queue = q; owner = Owner.idle; thief = th; pushed = ps; returned = rs }) =
            rw e at v in
          omega (arith, v'.kept)
