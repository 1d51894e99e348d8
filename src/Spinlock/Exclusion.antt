-- ===== src/Spinlock/Exclusion.antt =====
-- One thread at most holds the lock.
use godby.Prelude.{
  ℕ, ◌≡◌, ◌≢◌, refl, sym, ◌∙◌, ap, subst, Bool, true, false, arith, inl, inr, if◌then◌else◌, update,
  ◌==◌, ==_iff, Bool-cases,
}
use godby.Spinlock.{
  Thread, outside, locking, inside, unlocking, Spinlock, access, Step, lock, unlock, run, Reach,
  begin, next,
}

-- From the return of `lock` until the store of `unlock` a thread holds the lock.
abbrev pub holds : Thread → Bool
holds outside = false
holds locking = false
holds inside = true
holds unlocking = true

-- The lock is free and nobody holds it, or one thread holds it and no other.
record Valid (s : Spinlock) : Type 0 where
  pub free : s.locked ≡ false → (t : ℕ) → holds (s.thread t) ≡ false
  pub owner :
      s.locked ≡ true
      → (o : ℕ) × (holds (s.thread o) ≡ true) × ((t : ℕ) → holds (s.thread t) ≡ true → t ≡ o)

-- Replacing a thread by one that holds the lock as it did changes nothing.
same_holds :
    {s : Spinlock} (t : ℕ) (p : Thread)
    → holds p ≡ holds (s.thread t)
    → Valid s
    → Valid (record s { thread = update s.thread t p })
same_holds {s} t p e v = record {
  free = λ f u. as_before u ∙ v.free f u;
  owner = λ l.
      let (o, held, only) = v.owner l in
      (o, as_before o ∙ held, λ u h. only u (sym (as_before u) ∙ h));
}
  where
    as_before : (u : ℕ) → holds (update s.thread t p u) ≡ holds (s.thread u)
    as_before u = elim (Bool-cases (t == u)) [
      | inl same ↦ rw same (e ∙ ap (λ x. holds (s.thread x)) ((==_iff t u).0 same))
      | inr other ↦ rw other refl
    ]

-- While a thread holds the lock the flag is set.
set_of_holder : {s : Spinlock} → Valid s → (t : ℕ) → holds (s.thread t) ≡ true → s.locked ≡ true
set_of_holder {s} v t h = elim (Bool-cases s.locked) [
  | inl l ↦ l
  | inr f ↦ absurd (contrary (v.free f t))
]
  where
    contrary : holds (s.thread t) ≡ false → ⊥
    contrary e = cc

holders_equal :
    {s : Spinlock}
    → Valid s
    → (t u : ℕ) → holds (s.thread t) ≡ true
    → holds (s.thread u) ≡ true
    → t ≡ u
holders_equal v t u ht hu =
    let (o, held, only) = v.owner (set_of_holder v t ht) in only t ht ∙ sym (only u hu)

abbrev taken_by : ℕ → Spinlock → Spinlock
taken_by t s = record s { locked = true; thread = update s.thread t inside }

taken-Valid : (t : ℕ) (s : Spinlock) → s.locked ≡ false → Valid s → Valid (taken_by t s)
taken-Valid t s is_free v = record { free = λ f. absurd cc; owner = λ l. (t, own, only) }
  where
    own : holds (update s.thread t inside t) ≡ true
    own = ground arith

    only : (u : ℕ) → holds (update s.thread t inside u) ≡ true → u ≡ t
    only u h = elim (Bool-cases (t == u)) [
      | inl same ↦ sym ((==_iff t u).0 same)
      | inr other ↦ absurd (apart u other h)
    ]
      where
        apart : (u : ℕ) → (t == u) ≡ false → holds (update s.thread t inside u) ≡ true → ⊥
        apart u other h = ground (arith, v.free is_free u)

access-Valid : (t : ℕ) (p : Thread) (s : Spinlock) → s.thread t ≡ p → Valid s → Valid (access t p s)
unfolding access
access-Valid t outside s e v = v
access-Valid t inside s e v = v
access-Valid t locking s e v = elim (Bool-cases s.locked) [
  | inl taken ↦ subst (λ b. Valid (if b then s else taken_by t s)) (sym taken) v
  | inr is_free ↦
      subst (λ b. Valid (if b then s else taken_by t s)) (sym is_free) (taken-Valid t s is_free v)
]
access-Valid t unlocking s e v = record {
  free = λ f u. elim (Bool-cases (t == u)) [
    | inl same ↦ rw same refl
    | inr other ↦ rw other (nobody u (other_one u other))
  ];
  owner = λ l. absurd cc;
}
  where
    held : holds (s.thread t) ≡ true
    held = ap holds e

    other_one : (u : ℕ) → (t == u) ≡ false → t ≢ u
    other_one u other same = ground (arith, (==_iff t u).1 same)

    nobody : (u : ℕ) → t ≢ u → holds (s.thread u) ≡ false
    nobody u ne = elim (Bool-cases (holds (s.thread u))) [
      | inl h ↦ absurd (ne (holders_equal v t u held h))
      | inr h ↦ h
    ]

Step-Valid : {s s' : Spinlock} → Step s s' → Valid s → Valid s'
Step-Valid (lock t h) v = same_holds t locking (ap holds (sym h)) v
Step-Valid (unlock t h) v = same_holds t unlocking (ap holds (sym h)) v
Step-Valid {s} (run t) v = access-Valid t (s.thread t) s refl v

Reach-Valid : {s : Spinlock} → Reach s → Valid s
Reach-Valid begin = record { free = λ f t. refl; owner = λ l. absurd cc }
Reach-Valid (next before step) = Step-Valid step (Reach-Valid before)

-- However the threads interleave, two threads that hold the lock are the same thread, and while one
-- holds it the flag is set.
pub one_holder :
    {s : Spinlock}
    → Reach s
    → (t u : ℕ) → holds (s.thread t) ≡ true
    → holds (s.thread u) ≡ true
    → (t ≡ u) × (s.locked ≡ true)
one_holder {s} reach t u ht hu =
    let v = Reach-Valid reach in (holders_equal v t u ht hu, set_of_holder v t ht)
