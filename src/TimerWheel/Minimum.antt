-- ===== src/TimerWheel/Minimum.antt =====
-- The search of a list of events for the one that is due first.
use godby.Prelude.{
  ℕ, zero, suc, ◌≤◌, ◌≡◌, ◌⊎◌, inl, inr, refl, sym, ◌∙◌, subst, true, false, Option, none, some,
  List, [], ◌∷◌, ltb, ◌==◌, ==_iff, arith, length, Bool-cases, ltb→lt,
}
use godby.Prelude.Chain.{mem, first, after, Unique}
use godby.TimerWheel.{Wheel}
use godby.TimerWheel.Links.{Lists}
use godby.TimerWheel.Wakeup.{
  least, ticks_until, Search, too_long, goes_on, returns, and_then, min_events,
}

-- The events from `o` on are those of the list.
abbrev pub Walk : Wheel → Option ℕ → List ℕ → Type 0
Walk w o [] = o ≡ none
Walk w o (e ∷ l) = (o ≡ some e) × Walk w (w.event e).next l

pub first-Walk :
    (w : Wheel) (l : List ℕ)
    → Unique l
    → ((e : ℕ) → mem e l ≡ true → (w.event e).next ≡ after e l)
    → Walk w (first l) l
first-Walk w [] u h = refl
first-Walk w (a ∷ l) u h = (
  refl,
  subst (λ o. Walk w o l) (sym (h a (ground arith) ∙ ground arith))
      (first-Walk w l u.1 (λ e m. h e (ground arith) ∙ other e m)),
)
  where
    other : (e : ℕ) → mem e l ≡ true → after e (a ∷ l) ≡ after e l
    other e m = elim (Bool-cases (a == e)) [
      | inl same ↦ absurd (contrary (subst (λ x. mem x l ≡ false) ((==_iff a e).0 same) u.0))
      | inr apart ↦ rw apart refl
    ]
      where
        contrary : mem e l ≡ false → ⊥
        contrary x = cc

-- A number of ticks that is the limit, or the distance of an event of the wheel.
unfoldable pub Sound : Wheel → (ℕ → List ℕ) → ℕ → ℕ → Type 0
Sound w L max r =
    (r ≤ max) × ((r ≡ max) ⊎ ((e : ℕ) × (s : ℕ) × (mem e (L s) ≡ true) × (r ≡ ticks_until w e)))

module _ (w : Wheel) (L : ℕ → List ℕ) (max : ℕ) where
  unfoldable pub Good : Search → Type 0
  Good too_long = ⊥
  Good (goes_on m) = Sound w L max m
  Good (returns r) = Sound w L max r

  pub and_then-Good :
      (t : Search) (k : ℕ → Search)
      → Good t
      → ((m : ℕ) → Sound w L max m → Good (k m))
      → Good (and_then t k)
  unfolding Good
  and_then-Good too_long k g h = g
  and_then-Good (goes_on m) k g h = h m g
  and_then-Good (returns r) k g h = g

  pub least-Sound :
      (m e s : ℕ) → mem e (L s) ≡ true → Sound w L max m → Sound w L max (least m (ticks_until w e))
  unfolding Sound
  least-Sound m e s at g = elim (Bool-cases (ltb (ticks_until w e) m)) [
    | inl lt ↦ rw lt (omega (arith, g.0, ltb→lt (ticks_until w e) m lt), inr (e, s, at, refl))
    | inr le ↦ rw le g
  ]

  min_events-Good :
      (n s : ℕ) (o : Option ℕ) (l : List ℕ) (m : ℕ)
      → Walk w o l
      → ((e : ℕ) → mem e l ≡ true → mem e (L s) ≡ true)
      → length l ≤ n
      → Sound w L max m
      → Good (min_events n w o m)
  unfolding min_events Good
  min_events-Good zero s none l m walk in_slot short g = g
  min_events-Good zero s (some e) [] m walk in_slot short g = absurd cc
  min_events-Good zero s (some e) (a ∷ l) m walk in_slot short g = absurd (omega arith)
  min_events-Good (suc n) s none l m walk in_slot short g = g
  min_events-Good (suc n) s (some e) [] m walk in_slot short g = absurd cc
  min_events-Good (suc n) s (some e) (a ∷ l) m walk in_slot short g =
      min_events-Good n s (w.event e).next l (least m (ticks_until w e))
        (subst (λ x. Walk w (w.event x).next l) (sym same) walk.1) (λ x h. in_slot x (ground arith))
        (omega arith) (least-Sound m e s (in_slot e (ground (arith, same))) g)
    where
      same : e ≡ a
      same = of_some walk.0
        where
          of_some : some e ≡ some a → e ≡ a
          of_some x = cc

  module _ (n : ℕ) (lists : Lists none w L) (short : (s : ℕ) → length (L s) ≤ n) where
    pub slot-Good : (s m : ℕ) → Sound w L max m → Good (min_events n w (w.head s) m)
    slot-Good s m g =
        min_events-Good n s (w.head s) (L s) m
          (subst (λ o. Walk w o (L s)) (sym (lists.head s))
            (first-Walk w (L s) (lists.unique s) (λ e h. lists.next e s h)))
          (λ e h. h) (short s) g
