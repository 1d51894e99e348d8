-- ===== src/AtomicHashmap/Referenced.antt =====
-- `Referenced` of AtomicHashmap.h: the references to an object, which any number of threads acquire and
-- release, one access at a time. A thread holds one reference at most; the first thread begins with the
-- one that `clone` gives. A thread does not try to acquire a reference once the object has been deleted,
-- since it would read freed memory; it may still release one, or delete the object again.
use godby.Prelude.{
  ℕ, zero, suc, ◌+◌, ◌-◌, ◌≤◌, ◌<◌, ◌≡◌, refl, sym, ◌∙◌, ap, subst, false, List, [], ◌∷◌, arith,
  length, ◌%◌, ◌^◌, length-set, length-replicate, get_or, set, replicate, inl, inr, Bool-cases,
  if◌then◌else◌, ◌==◌, ==_iff,
}

-- `__ref` is an `int`: its 32 bits, in two's complement.
abbrev pub int : ℕ
int = 2 ^ 32

pub data Thread : Type 0 where
  without : Thread
  loaded : (curr : ℕ) → Thread  -- in `Acquire`, before it tests `curr`
  holding : Thread
  deleting : Thread  -- after a `Release` that returned true

pub record Object : Type 0 where
  pub ref : ℕ
  pub deletions : ℕ
  pub threads : List Thread

abbrev pub set_thread : Object → ℕ → Thread → Object
set_thread o t p = record o { threads = set o.threads t p }

-- The next access of a thread: a turn of the loop of `Acquire`, `Release`, or the `delete` after it.
unfoldable pub access : ℕ → Thread → Object → Object
access t without o = set_thread o t (loaded o.ref)
access t (loaded curr) o =
    if curr == 0
    then set_thread o t without
    else (if o.ref == curr
        then record o { ref = (curr + 1) % int; threads = set o.threads t holding }
        else set_thread o t (loaded o.ref))
access t holding o =
    let ref = (o.ref + int - 1) % int in
    record o { ref = ref; threads = set o.threads t (if ref == 0 then deleting else without) }
access t deleting o = record o { deletions = o.deletions + 1; threads = set o.threads t without }

-- A step of `Acquire` reads the object.
abbrev pub Intact : Thread → Object → Type 0
Intact without o = o.deletions ≡ 0
Intact (loaded curr) o = o.deletions ≡ 0
Intact holding o = Unit
Intact deleting o = Unit

pub data Reach (n : ℕ) : Object → Type 0 where
  clone : Reach n (record { ref = 1; deletions = 0; threads = holding ∷ replicate n without })
  next :
      {o : Object} (t : ℕ)
      → Reach n o
      → t < length o.threads
      → Intact (get_or o.threads t without) o
      → Reach n (access t (get_or o.threads t without) o)

abbrev pub holds : Thread → ℕ
holds without = 0
holds (loaded curr) = 0
holds holding = 1
holds deleting = 0

abbrev pub deletes : Thread → ℕ
deletes without = 0
deletes (loaded curr) = 0
deletes holding = 0
deletes deleting = 1

-- A number of each thread, summed.
unfoldable pub sum : (Thread → ℕ) → List Thread → ℕ
sum f [] = 0
sum f (p ∷ ps) = f p + sum f ps

sum-set :
    (f : Thread → ℕ) (ps : List Thread) (t : ℕ) (p : Thread)
    → t < length ps
    → sum f (set ps t p) + f (get_or ps t without) ≡ sum f ps + f p
unfolding sum
sum-set f [] t p h = absurd (omega arith)
sum-set f (q ∷ ps) zero p h = omega arith
sum-set f (q ∷ ps) (suc t) p h = omega (arith, sum-set f ps t p (omega arith))

sum-holds : (ps : List Thread) → sum holds ps ≤ length ps
unfolding sum
sum-holds [] = omega arith
sum-holds (without ∷ ps) = omega (arith, sum-holds ps)
sum-holds (loaded curr ∷ ps) = omega (arith, sum-holds ps)
sum-holds (holding ∷ ps) = omega (arith, sum-holds ps)
sum-holds (deleting ∷ ps) = omega (arith, sum-holds ps)

record Valid (o : Object) : Type 0 where
  pub few : length o.threads < 2 ^ 31
  pub counted : o.ref ≡ sum holds o.threads
  pub deleted : o.deletions + sum deletes o.threads ≡ (if o.ref == 0 then 1 else 0)

module _ (o : Object) (t : ℕ) (p : Thread) (e : get_or o.threads t without ≡ p)
    (h : t < length o.threads) where
  moved : (f : Thread → ℕ) (p' : Thread) → sum f (set o.threads t p') + f p ≡ sum f o.threads + f p'
  moved f p' = ap (λ q. sum f (set o.threads t p') + f q) (sym e) ∙ sum-set f o.threads t p' h

  -- A thread moves on without a reference or a deletion being gained or lost.
  moved-Valid :
      (p' : Thread)
      → holds p' ≡ holds p
      → deletes p' ≡ deletes p
      → Valid o
      → Valid (set_thread o t p')
  moved-Valid p' same same' v = record {
    few = omega (arith, length-set o.threads t p', v.few);
    counted = omega (arith, moved holds p', same, v.counted);
    deleted = omega (arith, moved deletes p', same', v.deleted);
  }

access-Valid :
    (o : Object) (t : ℕ) (p : Thread)
    → get_or o.threads t without ≡ p
    → t < length o.threads
    → Valid o
    → Valid (access t p o)
unfolding access
access-Valid o t without e h v = moved-Valid o t without e h (loaded o.ref) refl refl v
access-Valid o t (loaded curr) e h v = elim (Bool-cases (curr == 0)) [
  | inl zero_ref ↦
      subst (λ b. Valid (if b then set_thread o t without else tried)) (sym zero_ref)
        (moved-Valid o t (loaded curr) e h without refl refl v)
  | inr live ↦
      subst (λ b. Valid (if b then set_thread o t without else tried)) (sym live)
        (elim (Bool-cases (o.ref == curr)) [
          | inl same ↦
              subst (λ b. Valid (if b then gained else set_thread o t (loaded o.ref))) (sym same)
                (gained-Valid ((==_iff o.ref curr).0 same) live)
          | inr other ↦
              subst (λ b. Valid (if b then gained else set_thread o t (loaded o.ref))) (sym other)
                (moved-Valid o t (loaded curr) e h (loaded o.ref) refl refl v)
        ])
]
  where
    gained : Object
    gained = record o { ref = (curr + 1) % int; threads = set o.threads t holding }

    tried : Object
    tried = if o.ref == curr then gained else set_thread o t (loaded o.ref)

    gained-Valid : o.ref ≡ curr → (curr == 0) ≡ false → Valid gained
    gained-Valid same live = record {
      few = omega (arith, length-set o.threads t holding, v.few);
      counted = omega (
        arith,
        moved o t (loaded curr) e h holds holding,
        same,
        v.counted,
        v.few,
        sum-holds o.threads,
      );
      deleted =
          ground
            (arith, moved o t (loaded curr) e h deletes holding, same, v.deleted, more_than_none);
    }
      where
        more_than_none : ((curr + 1) % int == 0) ≡ false
        more_than_none = ground (arith, same, v.counted, v.few, sum-holds o.threads)
access-Valid o t holding e h v = elim (Bool-cases (left == 0)) [
  | inl last ↦
      subst
        (λ b.
          Valid
            (record o { ref = left; threads = set o.threads t (if b then deleting else without) }))
        (sym last)
        (record {
          few = omega (arith, length-set o.threads t deleting, v.few);
          counted = omega (arith, moved o t holding e h holds deleting, v.counted, one_less);
          deleted = ground (arith, last, held, moved o t holding e h deletes deleting, v.deleted);
        })
  | inr more ↦
      subst
        (λ b.
          Valid
            (record o { ref = left; threads = set o.threads t (if b then deleting else without) }))
        (sym more)
        (record {
          few = omega (arith, length-set o.threads t without, v.few);
          counted = omega (arith, moved o t holding e h holds without, v.counted, one_less);
          deleted = ground (arith, more, held, moved o t holding e h deletes without, v.deleted);
        })
]
  where
    left : ℕ
    left = (o.ref + int - 1) % int

    held : 0 < o.ref
    held = omega (arith, moved o t holding e h holds without, v.counted)

    one_less : left ≡ o.ref - 1
    one_less = omega (arith, held, v.counted, v.few, sum-holds o.threads)
access-Valid o t deleting e h v = record {
  few = omega (arith, length-set o.threads t without, v.few);
  counted = omega (arith, moved o t deleting e h holds without, v.counted);
  deleted = omega (arith, moved o t deleting e h deletes without, v.deleted);
}

start_sum : (f : Thread → ℕ) (n : ℕ) → f without ≡ 0 → sum f (replicate n without) ≡ 0
unfolding sum
start_sum f zero h = refl
start_sum f (suc n) h = omega (arith, h, start_sum f n h)

Reach-Valid : {n : ℕ} {o : Object} → n + 1 < 2 ^ 31 → Reach n o → Valid o
unfolding sum
Reach-Valid {n} small clone = record {
  few = omega (arith, length-replicate n without);
  counted = omega (arith, start_sum holds n refl);
  deleted = omega (arith, start_sum deletes n refl);
}
Reach-Valid small (next {o} t before h intact) =
    access-Valid o t (get_or o.threads t without) refl h (Reach-Valid small before)

-- For fewer than 2 ^ 31 threads, each of which holds one reference at most and none of which goes
-- on with an Acquire once the object has been deleted, however their accesses interleave: the
-- counter is the number of references held; the object is not deleted while one is held; and when
-- none is held it has been deleted once, or a single thread is about to delete it.
pub deleted_once :
    {n : ℕ} {o : Object}
    → n + 1 < 2 ^ 31
    → Reach n o
    → (o.ref ≡ sum holds o.threads)
      × (0 < sum holds o.threads → o.deletions ≡ 0)
      × (sum holds o.threads ≡ 0 → o.deletions + sum deletes o.threads ≡ 1)
deleted_once {n} {o} small reach =
    let v = Reach-Valid small reach in
    (
      v.counted,
      λ h. ground (arith, v.counted, v.deleted),
      λ h. ground (arith, v.counted, v.deleted),
    )
