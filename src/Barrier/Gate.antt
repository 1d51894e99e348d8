-- ===== src/Barrier/Gate.antt =====
-- No thread passes before as many as expected have arrived.
use godby.Prelude.{
  ℕ, ◌+◌, ◌%◌, ◌^◌, ◌≤◌, ◌<◌, ◌≡◌, refl, sym, subst, arith, inl, inr, if◌then◌else◌, update_cases,
  ◌==◌, ==_iff, Bool-cases,
}
use godby.Barrier.{
  Waiter, outside, arriving, waiting, passed, Releaser, away, counting, counted, done, Barrier,
  set_waiter, wait_step, release_step, Step, wait, release, run_wait, run_release, Reach, begin,
  next,
}

-- What the thread that releases knows of the threads that have arrived.
abbrev Knows : Releaser → ℕ → ℕ → Type 0
Knows away counter arrived = counter ≡ arrived
Knows (counting expected) counter arrived = counter ≡ arrived
Knows (counted expected) counter arrived = (counter ≡ arrived) × (expected ≤ arrived)
Knows (done expected) counter arrived = expected ≤ arrived

-- Whether a thread that has arrived may find the counter to be 0.
abbrev Open : Releaser → Type 0
Open away = ⊥
Open (counting expected) = ⊥
Open (counted expected) = ⊥
Open (done expected) = Unit

abbrev Place : Waiter → Releaser → ℕ → Type 0
Place outside r arrived = Unit
Place arriving r arrived = Unit
Place waiting r arrived = 0 < arrived
Place passed r arrived = Open r

record Valid (s : Barrier) : Type 0 where
  pub knows : Knows s.releaser s.counter s.arrived
  pub place : (t : ℕ) → Place (s.waiter t) s.releaser s.arrived
  pub few : s.arrived < 2 ^ 32

-- A thread stands elsewhere.
set_waiter-Valid :
    (s : Barrier) (t : ℕ) (p : Waiter)
    → Place p s.releaser s.arrived
    → Valid s
    → Valid (set_waiter s t p)
set_waiter-Valid s t p own v = record {
  knows = v.knows;
  place = λ u. elim (update_cases s.waiter t p u) [
    | inl (_, e) ↦ subst (λ q. Place q s.releaser s.arrived) (sym e) own
    | inr e ↦ subst (λ q. Place q s.releaser s.arrived) (sym e) (v.place u)
  ];
  few = v.few;
}

-- One more thread has arrived.
more-Knows :
    (r : Releaser) (counter arrived : ℕ)
    → arrived + 1 < 2 ^ 32
    → Knows r counter arrived
    → Knows r ((counter + 1) % 2 ^ 32) (arrived + 1)
more-Knows away counter arrived few k = omega (arith, k)
more-Knows (counting expected) counter arrived few k = omega (arith, k)
more-Knows (counted expected) counter arrived few k = (omega (arith, k.0), omega (arith, k.1))
more-Knows (done expected) counter arrived few k = omega (arith, k)

more-Place : (p : Waiter) (r : Releaser) (arrived : ℕ) → Place p r arrived → Place p r (arrived + 1)
more-Place outside r arrived h = tt
more-Place arriving r arrived h = tt
more-Place waiting r arrived h = omega arith
more-Place passed r arrived h = h

-- A thread that has arrived finds 0 only after the release.
zero-Open :
    (r : Releaser) (counter arrived : ℕ)
    → 0 < arrived
    → counter ≡ 0
    → Knows r counter arrived
    → Open r
zero-Open away counter arrived pos z k = omega (arith, k)
zero-Open (counting expected) counter arrived pos z k = omega (arith, k)
zero-Open (counted expected) counter arrived pos z k = omega (arith, k.0)
zero-Open (done expected) counter arrived pos z k = tt

wait_step-Valid :
    (t : ℕ) (p : Waiter) (s : Barrier)
    → s.waiter t ≡ p
    → s.arrived + 1 < 2 ^ 32
    → Valid s
    → Valid (wait_step t p s)
unfolding wait_step
wait_step-Valid t outside s e few v = v
wait_step-Valid t arriving s e few v = record {
  knows = more-Knows s.releaser s.counter s.arrived few v.knows;
  place = λ u. elim (update_cases s.waiter t waiting u) [
    | inl (_, e') ↦ subst (λ q. Place q s.releaser (s.arrived + 1)) (sym e') (omega arith)
    | inr e' ↦
        subst (λ q. Place q s.releaser (s.arrived + 1)) (sym e')
          (more-Place (s.waiter u) s.releaser s.arrived (v.place u))
  ];
  few = few;
}
wait_step-Valid t waiting s e few v = elim (Bool-cases (s.counter == 0)) [
  | inl z ↦
      subst (λ b. Valid (if b then set_waiter s t passed else s)) (sym z)
        (set_waiter-Valid s t passed
          (zero-Open s.releaser s.counter s.arrived
            (subst (λ q. Place q s.releaser s.arrived) e (v.place t)) ((==_iff s.counter 0).0 z)
            v.knows)
          v)
  | inr n ↦ subst (λ b. Valid (if b then set_waiter s t passed else s)) (sym n) v
]
wait_step-Valid t passed s e few v = v

-- Nobody has passed while the release is not done.
closed-Place :
    (p : Waiter) (r r' : Releaser) (arrived : ℕ)
    → (Open r → Open r')
    → Place p r arrived
    → Place p r' arrived
closed-Place outside r r' arrived h place = tt
closed-Place arriving r r' arrived h place = tt
closed-Place waiting r r' arrived h place = place
closed-Place passed r r' arrived h place = h place

release_step-Valid :
    (r : Releaser) (s : Barrier) → s.releaser ≡ r → Valid s → Valid (release_step r s)
unfolding release_step
release_step-Valid away s e v = v
release_step-Valid (counting expected) s e v = elim (Bool-cases (expected == s.counter)) [
  | inl same ↦
      subst (λ b. Valid (if b then record s { releaser = counted expected } else s)) (sym same)
        (record {
          knows = (known, omega (arith, known, (==_iff expected s.counter).0 same));
          place = λ t.
              closed-Place (s.waiter t) (counting expected) (counted expected) s.arrived (λ h. h)
                (subst (λ r. Place (s.waiter t) r s.arrived) e (v.place t));
          few = v.few;
        })
  | inr other ↦
      subst (λ b. Valid (if b then record s { releaser = counted expected } else s)) (sym other) v
]
  where
    known : s.counter ≡ s.arrived
    known = subst (λ r. Knows r s.counter s.arrived) e v.knows
release_step-Valid (counted expected) s e v = record {
  knows = (subst (λ r. Knows r s.counter s.arrived) e v.knows).1;
  place = λ t.
      closed-Place (s.waiter t) (counted expected) (done expected) s.arrived (λ h. tt)
        (subst (λ r. Place (s.waiter t) r s.arrived) e (v.place t));
  few = v.few;
}
release_step-Valid (done expected) s e v = v

Step-Valid : {s s' : Barrier} → Step s s' → Valid s → Valid s'
Step-Valid {s} (wait t h) v = set_waiter-Valid s t arriving tt v
Step-Valid {s} (release expected h) v = record {
  knows = subst (λ r. Knows r s.counter s.arrived) h v.knows;
  place = λ t.
      closed-Place (s.waiter t) away (counting expected) s.arrived (λ x. x)
        (subst (λ r. Place (s.waiter t) r s.arrived) h (v.place t));
  few = v.few;
}
Step-Valid {s} (run_wait t few) v = wait_step-Valid t (s.waiter t) s refl few v
Step-Valid {s} run_release v = release_step-Valid s.releaser s refl v

Reach-Valid : {s : Barrier} → Reach s → Valid s
Reach-Valid begin = record { knows = refl; place = λ t. tt; few = omega arith }
Reach-Valid (next before step) = Step-Valid step (Reach-Valid before)

-- However the accesses interleave, in one round in which each thread waits once and release is called once, with
-- fewer than 2 ^ 32 threads: once a thread has left wait, release has been called, has found as many
-- threads as it expects, and has returned.
pub passed_after :
    {s : Barrier}
    → Reach s
    → (t : ℕ) → s.waiter t ≡ passed
    → (expected : ℕ) × (s.releaser ≡ done expected) × (expected ≤ s.arrived)
passed_after {s} reach t h = from s.releaser refl
  where
    v : Valid s
    v = Reach-Valid reach

    from :
        (r : Releaser)
        → s.releaser ≡ r
        → (expected : ℕ) × (s.releaser ≡ done expected) × (expected ≤ s.arrived)
    from (done expected) e = (expected, e, subst (λ r. Knows r s.counter s.arrived) e v.knows)
    from away e = absurd (here e)
      where
        here : s.releaser ≡ away → ⊥
        here e = subst (λ r. Open r) e (subst (λ p. Place p s.releaser s.arrived) h (v.place t))
    from (counting expected) e =
        absurd (subst (λ r. Open r) e (subst (λ p. Place p s.releaser s.arrived) h (v.place t)))
    from (counted expected) e =
        absurd (subst (λ r. Open r) e (subst (λ p. Place p s.releaser s.arrived) h (v.place t)))
