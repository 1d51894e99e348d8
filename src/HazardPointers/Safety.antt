-- ===== src/HazardPointers/Safety.antt =====
-- However the threads interleave, an object that a thread has protected is not destroyed.
use godby.Prelude.{
  ℕ, ◌+◌, ◌<◌, ◌≡◌, refl, sym, subst, Bool, true, false, none, some, arith, inl, inr, update,
  update-same, update_cases, ltb→lt, ◌==◌, ==_iff, Bool-cases, if◌then◌else◌,
}
use godby.Prelude.Chain.{opt_is}
use godby.HazardPointers.{
  Task, ready, loading, Thread, outside, seeking, exchanging, following, linking, crashed, owning,
  Hazards, set_thread, has_next, exchange, link, thread_step, Step, run, get_slot, relinquish,
  spurious, protect, release, retire, store, Reach, begin, next,
}
use godby.HazardPointers.Valid.{Place, owns, Valid}
use godby.HazardPointers.Moves.{set_thread-Valid, write-Valid}
use godby.HazardPointers.Slots.{take-Valid, linked-Valid, give_back-Valid, client-Valid}
use godby.HazardPointers.Tasks.{task_step-Valid}
use godby.HazardPointers.Retire.{pushed-Valid}

thread_step-Valid :
    (hardware : ℕ) (s : Hazards) (t : ℕ) (x : Thread)
    → s.thread t ≡ x
    → Valid s
    → Valid (thread_step hardware t x s)
unfolding thread_step
thread_step-Valid hardware s t x e v = from x e (subst (Place s) e (v.place t))
  where
    seek :
        (k : ℕ) (b : Bool)
        → k < s.size
        → Valid (set_thread t (if b then following k else exchanging k) s)
    seek k true low = set_thread-Valid s t (following k) (λ j p h. tt) (λ j h. absurd (cc)) low v
    seek k false low = set_thread-Valid s t (exchanging k) (λ j p h. tt) (λ j h. absurd (cc)) low v

    swap : (k : ℕ) (b : Bool) → s.in_use k ≡ b → k < s.size → Valid (exchange t k b s)
    swap k true f low = set_thread-Valid s t (following k) (λ j p h. tt) (λ j h. absurd (cc)) low v
    swap k false f low = take-Valid s t k low f v

    follow :
        (k : ℕ) (b : Bool)
        → has_next s k ≡ b
        → k < s.size
        → Valid (set_thread t (if b then seeking (k + 1) else linking k) s)
    follow k true f low =
        set_thread-Valid s t (seeking (k + 1)) (λ j p h. tt) (λ j h. absurd (cc))
          (ltb→lt (k + 1) s.size f) v
    follow k false f low = set_thread-Valid s t (linking k) (λ j p h. tt) (λ j h. absurd (cc)) low v

    join : (k : ℕ) (b : Bool) → has_next s k ≡ b → Valid (link hardware t k b s)
    join k true f =
        set_thread-Valid s t (linking (k + 1)) (λ j p h. tt) (λ j h. absurd (cc))
          (ltb→lt (k + 1) s.size f) v
    join k false f = linked-Valid hardware s t v

    from : (x : Thread) → s.thread t ≡ x → Place s x → Valid (thread_step hardware t x s)
    from outside e p = v
    from (seeking k) e p = seek k (s.in_use k) p
    from (exchanging k) e p = swap k (s.in_use k) refl p
    from (following k) e p = follow k (has_next s k) refl p
    from (linking k) e p = join k (has_next s k) refl
    from crashed e p = v
    from (owning k task) e p = task_step-Valid s t k v task e

Step-Valid :
    {deamortized : Bool} {hardware : ℕ} {s s' : Hazards}
    → Step deamortized hardware s s'
    → Valid s
    → Valid s'
Step-Valid {hardware} {s} (run t) v = thread_step-Valid hardware s t (s.thread t) refl v
Step-Valid {s} (get_slot t e) v =
    set_thread-Valid s t (seeking 0) (λ j p h. tt) (λ j h. absurd (cc)) v.some_slot v
Step-Valid {s} (relinquish t k e) v =
    give_back-Valid s t k (subst (λ x. owns x k ≡ true) (sym e) ((==_iff k k).1 refl)) v
Step-Valid {s} (spurious t k e h) v =
    set_thread-Valid s t crashed (λ j p h. tt) (λ j h. absurd (cc)) tt v
Step-Valid {s} (protect t k src {held} e) v =
    set_thread-Valid s t (owning k (loading src)) (λ j p h. tt)
      (λ j h. subst (λ x. owns x j ≡ true) (sym e) h)
      (let p = subst (Place s) e (v.place t) in (p.0, p.1, tt)) v
Step-Valid {s} (release t k {held} e) v =
    write-Valid s t k none (ready none) (subst (λ x. owns x k ≡ true) (sym e) ((==_iff k k).1 refl))
      (λ j p. tt) (let p = subst (Place s) e (v.place t) in (p.0, p.1, tt)) v
Step-Valid {deamortized} {s} (retire t k p {held} e fresh unlinked) v =
    pushed-Valid deamortized (record s { retired = update s.retired p true }) t k p held e
      (update-same s.retired p true)
      (client-Valid s s.src (update s.retired p true) apart (λ q h. ground arith) v)
  where
    apart : (i q : ℕ) → opt_is (s.src i) q ≡ true → update s.retired p true q ≡ false
    apart i q h = elim (Bool-cases (p == q)) [
      | inl same ↦ absurd (
          contrary (subst (λ q. opt_is (s.src i) q ≡ true) (sym ((==_iff p q).0 same)) h)
            (unlinked i))
      | inr other ↦ rw other (v.linked i q h)
    ]
      where
        contrary : {b : Bool} → b ≡ true → b ≡ false → ⊥
        contrary h h' = cc
Step-Valid {s} (store src o fresh) v =
    client-Valid s (update s.src src o) s.retired apart (λ p h. h) v
  where
    apart : (i p : ℕ) → opt_is (update s.src src o i) p ≡ true → s.retired p ≡ false
    apart i p = elim (update_cases s.src src o i) [
      | inl (e, e') ↦ subst (λ o. opt_is o p ≡ true → s.retired p ≡ false) (sym e') (fresh p)
      | inr e ↦ subst (λ o. opt_is o p ≡ true → s.retired p ≡ false) (sym e) (v.linked i p)
    ]

Reach-Valid :
    {deamortized : Bool} {hardware : ℕ} {s : Hazards} → Reach deamortized hardware s → Valid s
Reach-Valid {hardware} (begin src) = record {
  place = λ t. tt;
  alone = λ k t u h h'. absurd (cc);
  some_slot = ground arith;
  linked = λ i p h. refl;
  lists = λ j p h. absurd (cc);
  dead = λ p h. absurd (cc);
}
Reach-Valid (next before step) = Step-Valid step (Reach-Valid before)

-- However the accesses of any number of threads interleave, in the amortized way of reclaiming and in the deamortized one,
-- where an object is retired once, when no atomic of the client points to it, and no atomic is made to point to it
-- again: an object that protect has returned is not destroyed until its thread calls release or protect again or gives
-- its slot back; no object that an atomic points to is destroyed; only objects that were retired are
-- destroyed; and no two threads own one slot.
pub protected_alive :
    {deamortized : Bool} {hardware : ℕ} {s : Hazards}
    → Reach deamortized hardware s
    → ((t k p : ℕ) → s.thread t ≡ owning k (ready (some p)) → s.destroyed p ≡ false)
      × ((src p : ℕ) → opt_is (s.src src) p ≡ true → s.destroyed p ≡ false)
      × ((p : ℕ) → s.destroyed p ≡ true → s.retired p ≡ true)
      × ((t u k : ℕ) (task task' : Task)
          → s.thread t ≡ owning k task
          → s.thread u ≡ owning k task'
          → t ≡ u)
protected_alive {s} reach = (
  λ t k p e. (subst (Place s) e (v.place t)).2.alive,
  λ src p h. elim (Bool-cases (s.destroyed p)) [
    | inl d ↦ absurd (contrary (v.linked src p h) (v.dead p d))
    | inr n ↦ n
  ],
  v.dead,
  λ t u k task task' e e'.
      v.alone k t u (subst (λ x. owns x k ≡ true) (sym e) ((==_iff k k).1 refl))
        (subst (λ x. owns x k ≡ true) (sym e') ((==_iff k k).1 refl)),
)
  where
    v : Valid s
    v = Reach-Valid reach

    contrary : {b : Bool} → b ≡ false → b ≡ true → ⊥
    contrary h h' = cc
