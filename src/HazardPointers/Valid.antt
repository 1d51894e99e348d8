-- ===== src/HazardPointers/Valid.antt =====
-- The invariant of the threads, and how a step of one thread keeps what holds of the others.
use godby.Prelude.{
  ℕ, ◌≤◌, ◌<◌, ◌≡◌, ◌≢◌, refl, sym, ◌∙◌, subst, Bool, true, false, Option, none, some, arith,
  update, ◌==◌, ==_iff,
}
use godby.Prelude.Chain.{opt_is}
use godby.HazardPointers.{
  Task, ready, loading, announcing, checking, scanning, stepping, noting, passing, Thread, outside,
  seeking, exchanging, following, linking, crashed, owning, Hazards,
}
use godby.HazardPointers.Held.{Held, others_and}
use godby.HazardPointers.Guards.{listed}

abbrev pub May : Hazards → ℕ → Option ℕ → Type 0
May s k none = Unit
May s k (some p) = Held s k p

-- What a thread that owns slot `k` relies on.
abbrev pub Claims : Hazards → ℕ → Task → Type 0
Claims s k (ready held) = May s k held
Claims s k (loading src) = Unit
Claims s k (announcing src p) = Unit
Claims s k (checking src p) = s.protected_ptr k ≡ some p
Claims s k (scanning held i) = May s k held
Claims s k (stepping held i) = May s k held
Claims s k (noting held) = May s k held
Claims s k (passing held) = May s k held

abbrev pub Place : Hazards → Thread → Type 0
Place s outside = Unit
Place s (seeking k) = k < s.size
Place s (exchanging k) = k < s.size
Place s (following k) = k < s.size
Place s (linking k) = k < s.size
Place s crashed = Unit
Place s (owning k task) = (k < s.size) × (s.in_use k ≡ true) × Claims s k task

abbrev pub owns : Thread → ℕ → Bool
owns outside k = false
owns (seeking j) k = false
owns (exchanging j) k = false
owns (following j) k = false
owns (linking j) k = false
owns crashed k = false
owns (owning j task) k = j == k

pub record Valid (s : Hazards) : Type 0 where
  pub place : (t : ℕ) → Place s (s.thread t)
  pub alone : (k t u : ℕ) → owns (s.thread t) k ≡ true → owns (s.thread u) k ≡ true → t ≡ u
  pub some_slot : 0 < s.size
  pub linked : (src p : ℕ) → opt_is (s.src src) p ≡ true → s.retired p ≡ false
  pub lists : (j p : ℕ) → listed p (s.slot j) ≡ true → s.retired p ≡ true
  pub dead : (p : ℕ) → s.destroyed p ≡ true → s.retired p ≡ true

-- What a step of thread t leaves to a slot that it does not own.
pub record Leaves (s s' : Hazards) (k : ℕ) : Type 0 where
  pub in_use : s.in_use k ≡ true → s'.in_use k ≡ true
  pub ptr : s'.protected_ptr k ≡ s.protected_ptr k
  pub held : (p : ℕ) → Held s k p → Held s' k p

left-May : (s s' : Hazards) (k : ℕ) (o : Option ℕ) → Leaves s s' k → May s k o → May s' k o
left-May s s' k none l m = tt
left-May s s' k (some p) l m = l.held p m

pub left-Claims :
    (s s' : Hazards) (k : ℕ) (task : Task) → Leaves s s' k → Claims s k task → Claims s' k task
left-Claims s s' k (ready held) l c = left-May s s' k held l c
left-Claims s s' k (loading src) l c = tt
left-Claims s s' k (announcing src p) l c = tt
left-Claims s s' k (checking src p) l c = l.ptr ∙ c
left-Claims s s' k (scanning held i) l c = left-May s s' k held l c
left-Claims s s' k (stepping held i) l c = left-May s s' k held l c
left-Claims s s' k (noting held) l c = left-May s s' k held l c
left-Claims s s' k (passing held) l c = left-May s s' k held l c

pub left-Place :
    (s s' : Hazards) (x : Thread)
    → s.size ≤ s'.size
    → ((k : ℕ) → owns x k ≡ true → Leaves s s' k)
    → Place s x
    → Place s' x
left-Place s s' outside grown l p = tt
left-Place s s' (seeking k) grown l p = omega (arith, grown, p)
left-Place s s' (exchanging k) grown l p = omega (arith, grown, p)
left-Place s s' (following k) grown l p = omega (arith, grown, p)
left-Place s s' (linking k) grown l p = omega (arith, grown, p)
left-Place s s' crashed grown l p = tt
left-Place s s' (owning k task) grown l p = (
  omega (arith, grown, p.0),
  (l k ((==_iff k k).1 refl)).in_use p.1,
  left-Claims s s' k task (l k ((==_iff k k).1 refl)) p.2,
)

-- Thread t goes on as `x`, which owns no slot that another thread owns.
pub places_after :
    (s s' : Hazards) (t : ℕ) (x : Thread)
    → s'.thread ≡ update s.thread t x
    → s.size ≤ s'.size
    → ((u k : ℕ) → t ≢ u → owns (s.thread u) k ≡ true → Leaves s s' k)
    → Place s' x
    → Valid s
    → (u : ℕ) → Place s' (s'.thread u)
places_after s s' t x e grown l own v =
    subst (λ f. (u : ℕ) → Place s' (f u)) (sym e)
      (others_and (λ u y. Place s' y) s.thread t x own
        (λ u ne. left-Place s s' (s.thread u) grown (λ k. l u k ne) (v.place u)))

pub alone_after :
    (s s' : Hazards) (t : ℕ) (x : Thread)
    → s'.thread ≡ update s.thread t x
    → ((u k : ℕ) → t ≢ u → owns (s.thread u) k ≡ true → owns x k ≡ false)
    → Valid s
    → (k u w : ℕ) → owns (s'.thread u) k ≡ true
    → owns (s'.thread w) k ≡ true
    → u ≡ w
alone_after s s' t x e apart v =
    subst (λ f. (k u w : ℕ) → owns (f u) k ≡ true → owns (f w) k ≡ true → u ≡ w) (sym e)
      (λ k u w.
        others_and (λ u y. owns y k ≡ true → owns (update s.thread t x w) k ≡ true → u ≡ w) s.thread
          t x
          (λ h.
            others_and (λ w y. owns y k ≡ true → t ≡ w) s.thread t x (λ h'. refl)
              (λ w ne h'. absurd (contrary h (apart w k ne h'))) w)
          (λ u ne h.
            others_and (λ w y. owns y k ≡ true → u ≡ w) s.thread t x
              (λ h'. absurd (contrary h' (apart u k ne h))) (λ w ne' h'. v.alone k u w h h') w)
          u)
  where
    contrary : {b : Bool} → b ≡ true → b ≡ false → ⊥
    contrary h h' = cc
