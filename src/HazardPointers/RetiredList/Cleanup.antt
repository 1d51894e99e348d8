-- ===== src/HazardPointers/RetiredList/Cleanup.antt =====
-- `cleanup` keeps the objects that are protected, and destroys the others.
use godby.Prelude.{
  ℕ, zero, suc, ◌<◌, ◌≡◌, ◌≢◌, refl, sym, ◌∙◌, ap, subst, Bool, false, Option, none, some, List, [],
  ◌∷◌, ◌++◌, append_assoc, append-nil, arith, inl, inr, update, update-same, update_other, ==_iff,
  Bool-cases, if◌then◌else◌, length,
}
use godby.Prelude.Chain.{mem, Unique}
use godby.Prelude.Linked.{Chain, Chain-update}
use godby.HazardPointers.Lists.{kept, dropped, last_of, mem-kept, Unique-kept}
use godby.HazardPointers.RetiredList.{
  Heap, RetiredList, set_next, destroy, drop_front, sweep, finish, cleanup,
}

abbrev pub last : List ℕ → Option ℕ
last [] = none
last (x ∷ l) = some (last_of x l)

-- A list consists of the objects `xs`.
pub record Holds (h : Heap) (l : RetiredList) (xs : List ℕ) : Type 0 where
  pub chain : Chain h.next l.head xs
  pub ends : l.tail ≡ last xs
  pub unique : Unique xs

pub ne_of_mem : (p q : ℕ) (l : List ℕ) → mem p (q ∷ l) ≡ false → q ≢ p
ne_of_mem p q l out e = ground (arith, (==_iff q p).1 e)

pub out_of_mem : (p q : ℕ) (l : List ℕ) → mem p (q ∷ l) ≡ false → mem p l ≡ false
out_of_mem p q l out = ground arith

-- Of the objects `xs`, `ks` are left in the list and `ds` have been destroyed.
pub record Cleaned (ks ds xs : List ℕ) (h : Heap) (r : RetiredList × Heap) : Type 0 where
  pub list : Holds r.1 r.0 ks
  pub log : r.1.destroyed ≡ h.destroyed ++ ds
  pub same : (q : ℕ) → mem q xs ≡ false → r.1.next q ≡ h.next q

record Swept (ks ds : List ℕ) (prev : ℕ) (xs : List ℕ) (h : Heap) (r : ℕ × Heap) : Type 0 where
  chain : Chain r.1.next (r.1.next prev) ks
  ends : r.0 ≡ last_of prev ks
  log : r.1.destroyed ≡ h.destroyed ++ ds
  same : (q : ℕ) → mem q (prev ∷ xs) ≡ false → r.1.next q ≡ h.next q

-- An object after `prev` is kept, or it is destroyed and `prev` linked to the one behind.
keep-Swept :
    {ks ds : List ℕ} {prev p : ℕ} {xs : List ℕ} {h : Heap} {r : ℕ × Heap}
    → h.next prev ≡ some p
    → Unique (prev ∷ p ∷ xs)
    → Swept ks ds p xs h r
    → Swept (p ∷ ks) ds prev (p ∷ xs) h r
keep-Swept {prev} {p} {xs} link u s = record {
  chain = (s.same prev u.0 ∙ link, s.chain);
  ends = s.ends;
  log = s.log;
  same = λ q out. s.same q (out_of_mem q prev (p ∷ xs) out);
}

drop-Swept :
    {ks ds : List ℕ} {prev p : ℕ} {xs : List ℕ} {h : Heap} {r : ℕ × Heap}
    → Swept ks ds prev xs (set_next prev (h.next p) (destroy p h)) r
    → Swept ks (p ∷ ds) prev (p ∷ xs) h r
drop-Swept {ds} {prev} {p} {xs} {h} s = record {
  chain = s.chain;
  ends = s.ends;
  log = s.log ∙ append_assoc h.destroyed (p ∷ []) ds;
  same = λ q out.
      s.same q (ground arith)
      ∙ (update_other (update h.next p none) prev (h.next p) q
            (λ e. ne_of_mem q prev (p ∷ xs) out (sym e))
          ∙ update_other h.next p none q
              (λ e. ne_of_mem q p xs (out_of_mem q prev (p ∷ xs) out) (sym e)));
}

sweep-Swept :
    (fuel : ℕ) (f : ℕ → Bool) (prev : ℕ) (current : Option ℕ) (xs : List ℕ) (h : Heap)
    → Chain h.next current xs
    → h.next prev ≡ current
    → Unique (prev ∷ xs)
    → length xs < fuel
    → Swept (kept f xs) (dropped f xs) prev xs h (sweep fuel f prev current h)
unfolding sweep
sweep-Swept zero f prev current xs h c link u enough = absurd (omega arith)
sweep-Swept (suc fuel) f prev current [] h c link u enough =
    subst (λ o. Swept [] [] prev [] h (sweep (suc fuel) f prev o h)) (sym c)
      (record {
        chain = link ∙ c;
        ends = refl;
        log = sym (append-nil h.destroyed);
        same = λ q out. refl;
      })
sweep-Swept (suc fuel) f prev current (x ∷ xs) h c link u enough =
    subst
      (λ o.
        Swept (kept f (x ∷ xs)) (dropped f (x ∷ xs)) prev (x ∷ xs) h (sweep (suc fuel) f prev o h))
      (sym c.0)
      (elim (Bool-cases (f x)) [
        | inl e ↦
            subst
              (λ b.
                Swept (if b then x ∷ kept f xs else kept f xs)
                  (if b then dropped f xs else x ∷ dropped f xs) prev (x ∷ xs) h
                  (if b then sweep fuel f x (h.next x) h else sweep fuel f prev (h.next x) h'))
              (sym e)
              (keep-Swept (link ∙ c.0) u
                (sweep-Swept fuel f x (h.next x) xs h c.1 refl u.1 (omega arith)))
        | inr e ↦
            subst
              (λ b.
                Swept (if b then x ∷ kept f xs else kept f xs)
                  (if b then dropped f xs else x ∷ dropped f xs) prev (x ∷ xs) h
                  (if b then sweep fuel f x (h.next x) h else sweep fuel f prev (h.next x) h'))
              (sym e)
              (drop-Swept (
                sweep-Swept fuel f prev (h.next x) xs h'
                  (Chain-update (update h.next x none) prev (h.next x) (h.next x) xs
                    (out_of_mem prev x xs u.0) (Chain-update h.next x none (h.next x) xs u.1.0 c.1))
                  (update-same (update h.next x none) prev (h.next x))
                  (out_of_mem prev x xs u.0, u.1.1) (omega arith)))
      ])
  where
    h' : Heap
    h' = set_next prev (h.next x) (destroy x h)

finish-Cleaned :
    (fuel : ℕ) (f : ℕ → Bool) (p : ℕ) (xs : List ℕ) (h : Heap)
    → Chain h.next (some p) (p ∷ xs)
    → Unique (p ∷ xs)
    → length xs < fuel
    → Cleaned (p ∷ kept f xs) (dropped f xs) (p ∷ xs) h (finish fuel f (some p) h)
unfolding finish
finish-Cleaned fuel f p xs h c u enough =
    let s = sweep-Swept fuel f p (h.next p) xs h c.1 refl u enough in
    record {
      list = record {
        chain = (refl, s.chain);
        ends = ap some s.ends;
        unique = (mem-kept f p xs u.0, Unique-kept f xs u.1);
      };
      log = s.log;
      same = s.same;
    }

drop-Cleaned :
    {ks ds : List ℕ} {p : ℕ} {xs : List ℕ} {h : Heap} {r : RetiredList × Heap}
    → Cleaned ks ds xs (destroy p h) r
    → Cleaned ks (p ∷ ds) (p ∷ xs) h r
drop-Cleaned {ds} {p} {xs} {h} s = record {
  list = s.list;
  log = s.log ∙ append_assoc h.destroyed (p ∷ []) ds;
  same = λ q out.
      s.same q (out_of_mem q p xs out)
      ∙ update_other h.next p none q (λ e. ne_of_mem q p xs out (sym e));
}

abbrev clean : ℕ → ℕ → (ℕ → Bool) → Option ℕ → Heap → RetiredList × Heap
clean k fuel f head h = finish fuel f (drop_front k f head h).0 (drop_front k f head h).1

clean-Cleaned :
    (k fuel : ℕ) (f : ℕ → Bool) (head : Option ℕ) (xs : List ℕ) (h : Heap)
    → Chain h.next head xs
    → Unique xs
    → length xs < k
    → length xs < fuel
    → Cleaned (kept f xs) (dropped f xs) xs h (clean k fuel f head h)
unfolding drop_front finish
clean-Cleaned zero fuel f head xs h c u few enough = absurd (omega arith)
clean-Cleaned (suc k) fuel f head [] h c u few enough =
    subst (λ o. Cleaned [] [] [] h (clean (suc k) fuel f o h)) (sym c)
      (record {
        list = record { chain = refl; ends = refl; unique = tt };
        log = sym (append-nil h.destroyed);
        same = λ q out. refl;
      })
clean-Cleaned (suc k) fuel f head (x ∷ xs) h c u few enough =
    subst
      (λ o. Cleaned (kept f (x ∷ xs)) (dropped f (x ∷ xs)) (x ∷ xs) h (clean (suc k) fuel f o h))
      (sym c.0)
      (elim (Bool-cases (f x)) [
        | inl e ↦ subst result (sym e) (finish-Cleaned fuel f x xs h (refl, c.1) u (omega arith))
        | inr e ↦ subst result (sym e) (
            drop-Cleaned (
              clean-Cleaned k fuel f (h.next x) xs (destroy x h)
                (Chain-update h.next x none (h.next x) xs u.0 c.1) u.1 (omega arith) (omega arith)))
      ])
  where
    rest : Option ℕ × Heap
    rest = drop_front k f (h.next x) (destroy x h)

    result : Bool → Type 0
    result b =
        Cleaned (if b then x ∷ kept f xs else kept f xs)
          (if b then dropped f xs else x ∷ dropped f xs) (x ∷ xs) h
          (finish fuel f (if b then (some x, h) else rest).0 (if b then (some x, h) else rest).1)

-- For a list that holds the objects `xs`, each once, and fuel above their number: cleanup leaves a list that holds
-- those that are protected, in their order and with the last of them as its tail; it destroys the others,
-- each once and in their order; and it changes the next pointer of no other object.
pub cleanup-Cleaned :
    (fuel : ℕ) (is_protected : ℕ → Bool) (l : RetiredList) (xs : List ℕ) (h : Heap)
    → Holds h l xs
    → length xs < fuel
    → Cleaned (kept is_protected xs) (dropped is_protected xs) xs h (cleanup fuel is_protected l h)
unfolding cleanup
cleanup-Cleaned fuel is_protected l xs h holds enough =
    clean-Cleaned fuel fuel is_protected l.head xs h holds.chain holds.unique enough enough
