-- ===== src/HazardPointers/RetiredList/Moves.antt =====
-- `push` and `eject_and_move` on the objects that the lists hold.
use godby.Prelude.{
  ℕ, zero, suc, ◌≡◌, refl, sym, ◌∙◌, ap, subst, Bool, true, false, Option, none, List, [], ◌∷◌,
  ◌++◌, append_assoc, append-nil, arith, inl, inr, update, update-same, update_other, ==_iff,
  Bool-cases, if◌then◌else◌,
}
use godby.Prelude.Chain.{mem, Unique}
use godby.Prelude.Linked.{Chain, Chain-update}
use godby.HazardPointers.Lists.{kept, dropped, take, drop, push_all}
use godby.HazardPointers.RetiredList.{
  Heap, RetiredList, set_next, destroy, or_else, push, eject, tail_of, eject_and_move,
}
use godby.HazardPointers.RetiredList.Cleanup.{Holds, last, ne_of_mem, out_of_mem}

abbrev pub Disjoint : List ℕ → List ℕ → Type 0
Disjoint xs ys = (q : ℕ) → mem q xs ≡ true → mem q ys ≡ false

-- Writing the next pointer of an object that is not in the list.
set_next-Holds :
    (p : ℕ) (o : Option ℕ) (h : Heap) (l : RetiredList) (xs : List ℕ)
    → mem p xs ≡ false
    → Holds h l xs
    → Holds (set_next p o h) l xs
set_next-Holds p o h l xs out holds = record {
  chain = Chain-update h.next p o l.head xs out holds.chain;
  ends = holds.ends;
  unique = holds.unique;
}

destroy-Holds :
    (p : ℕ) (h : Heap) (l : RetiredList) (xs : List ℕ)
    → mem p xs ≡ false
    → Holds h l xs
    → Holds (destroy p h) l xs
destroy-Holds p h l xs out holds = record {
  chain = Chain-update h.next p none l.head xs out holds.chain;
  ends = holds.ends;
  unique = holds.unique;
}

pub push-Holds :
    (p : ℕ) (h : Heap) (l : RetiredList) (xs : List ℕ)
    → mem p xs ≡ false
    → Holds h l xs
    → Holds (push p l h).1 (push p l h).0 (p ∷ xs)
unfolding push
push-Holds p h l xs out holds = record {
  chain = (refl, subst (λ o. Chain (update h.next p l.head) o xs) (sym own) behind.chain);
  ends = ap (λ o. or_else o p l.tail) own ∙ ends l.head xs holds.chain holds.ends;
  unique = (out, holds.unique);
}
  where
    behind : Holds (set_next p l.head h) l xs
    behind = set_next-Holds p l.head h l xs out holds

    own : update h.next p l.head p ≡ l.head
    own = update-same h.next p l.head

    ends :
        (head : Option ℕ) (xs : List ℕ)
        → Chain h.next head xs
        → l.tail ≡ last xs
        → or_else head p l.tail ≡ last (p ∷ xs)
    ends head [] c e = ap (λ o. or_else o p l.tail) c
    ends head (x ∷ xs) c e = ap (λ o. or_else o p l.tail) c.0 ∙ e

-- What is left of the list is `rest`, `into` holds `zs`, and `ds` have been destroyed.
pub record Ejected (rest zs ds xs : List ℕ) (h : Heap) (r : Option ℕ × RetiredList × Heap)
    : Type 0 where
  pub chain : Chain r.2.next r.0 rest
  pub into : Holds r.2 r.1 zs
  pub log : r.2.destroyed ≡ h.destroyed ++ ds
  pub same : (q : ℕ) → mem q xs ≡ false → r.2.next q ≡ h.next q

-- The object that is taken off the list is pushed onto `into`, or destroyed.
push-Ejected :
    {rest zs ds : List ℕ} {p : ℕ} {xs : List ℕ} {h : Heap} (o : Option ℕ)
    {r : Option ℕ × RetiredList × Heap}
    → Ejected rest zs ds xs (set_next p o h) r
    → Ejected rest zs ds (p ∷ xs) h r
push-Ejected {p} {xs} {h} o e = record {
  chain = e.chain;
  into = e.into;
  log = e.log;
  same = λ q out.
      e.same q (out_of_mem q p xs out)
      ∙ update_other h.next p o q (λ e. ne_of_mem q p xs out (sym e));
}

destroy-Ejected :
    {rest zs ds : List ℕ} {p : ℕ} {xs : List ℕ} {h : Heap} {r : Option ℕ × RetiredList × Heap}
    → Ejected rest zs ds xs (destroy p h) r
    → Ejected rest zs (p ∷ ds) (p ∷ xs) h r
destroy-Ejected {ds} {p} {xs} {h} e = record {
  chain = e.chain;
  into = e.into;
  log = e.log ∙ append_assoc h.destroyed (p ∷ []) ds;
  same = λ q out.
      e.same q (out_of_mem q p xs out)
      ∙ update_other h.next p none q (λ e. ne_of_mem q p xs out (sym e));
}

pub tail-Disjoint : (x : ℕ) (xs ys : List ℕ) → Disjoint (x ∷ xs) ys → Disjoint xs ys
tail-Disjoint x xs ys apart q m = apart q (ground arith)

-- The first object changes sides.
moved-Disjoint :
    (x : ℕ) (xs ys : List ℕ) → mem x xs ≡ false → Disjoint (x ∷ xs) ys → Disjoint xs (x ∷ ys)
moved-Disjoint x xs ys out apart q m = ground (
  arith,
  tail-Disjoint x xs ys apart q m,
  ==_iff x q,
  subst (λ q. mem q xs ≡ false) {x = x} {y = q},
)

module _ (f : ℕ → Bool) where
  eject-Ejected :
      (n : ℕ) (head : Option ℕ) (xs : List ℕ) (into : RetiredList) (ys : List ℕ) (h : Heap)
      → Chain h.next head xs
      → Unique xs
      → Holds h into ys
      → Disjoint xs ys
      → Ejected
          (drop xs n)
          (push_all (kept f (take xs n)) ys)
          (dropped f (take xs n))
          xs
          h
          (eject n f head into h)
  unfolding eject
  eject-Ejected zero head xs into ys h c u holds apart = record {
    chain = c;
    into = holds;
    log = sym (append-nil h.destroyed);
    same = λ q out. refl;
  }
  eject-Ejected (suc n) head [] into ys h c u holds apart =
      subst (λ o. Ejected [] ys [] [] h (eject (suc n) f o into h)) (sym c)
        (record {
          chain = refl;
          into = holds;
          log = sym (append-nil h.destroyed);
          same = λ q out. refl;
        })
  eject-Ejected (suc n) head (x ∷ xs) into ys h c u holds apart =
      subst
        (λ o.
          Ejected (drop xs n) (push_all (kept f (x ∷ take xs n)) ys) (dropped f (x ∷ take xs n))
            (x ∷ xs) h (eject (suc n) f o into h))
        (sym c.0)
        (elim (Bool-cases (f x)) [
          | inl e ↦ subst result (sym e) (
              push-Ejected into.head (
                eject-Ejected n (h.next x) xs (push x into h).0 (x ∷ ys) (set_next x into.head h)
                  (Chain-update h.next x into.head (h.next x) xs u.0 c.1) u.1
                  (push-Holds x h into ys out holds) (moved-Disjoint x xs ys u.0 apart)))
          | inr e ↦ subst result (sym e) (
              destroy-Ejected (
                eject-Ejected n (h.next x) xs into ys (destroy x h)
                  (Chain-update h.next x none (h.next x) xs u.0 c.1) u.1
                  (destroy-Holds x h into ys out holds) (tail-Disjoint x xs ys apart)))
        ])
    where
      result : Bool → Type 0
      result b =
          Ejected (drop xs n)
            (push_all (if b then x ∷ kept f (take xs n) else kept f (take xs n)) ys)
            (if b then dropped f (take xs n) else x ∷ dropped f (take xs n)) (x ∷ xs) h
            (if b
              then eject n f (h.next x) (push x into h).0 (push x into h).1
              else eject n f (h.next x) into (destroy x h))

      out : mem x ys ≡ false
      out = apart x (ground (arith, ==_iff x x))

-- The last object stays the last while there is one.
drop_tail :
    (n : ℕ) (next : ℕ → Option ℕ) (head : Option ℕ) (xs : List ℕ)
    → Chain next head (drop xs n)
    → tail_of head (last xs) ≡ last (drop xs n)
drop_tail zero next head [] c = ap (λ o. tail_of o none) c
drop_tail zero next head (x ∷ xs) c = ap (λ o. tail_of o (last (x ∷ xs))) c.0
drop_tail (suc n) next head [] c = ap (λ o. tail_of o none) c
drop_tail (suc zero) next head (x ∷ []) c = ap (λ o. tail_of o (last (x ∷ []))) c
drop_tail (suc (suc n)) next head (x ∷ []) c = ap (λ o. tail_of o (last (x ∷ []))) c
drop_tail (suc n) next head (x ∷ y ∷ xs) c = drop_tail n next head (y ∷ xs) c

Unique-drop : (n : ℕ) (xs : List ℕ) → Unique xs → Unique (drop xs n)
Unique-drop zero xs u = u
Unique-drop (suc n) [] u = tt
Unique-drop (suc n) (x ∷ xs) u = Unique-drop n xs u.1

-- For two lists with no object in common: eject_and_move takes up to `n` objects off the first list; it pushes
-- those that are protected onto the other list, the last of them in front, and destroys the others, each
-- once and in their order; both lists then hold these objects, with their tails, and no next pointer but those of
-- the first list's objects has changed.
pub eject_and_move_lem :
    (n : ℕ) (is_protected : ℕ → Bool) (l into : RetiredList) (xs ys : List ℕ) (h : Heap)
    → Holds h l xs
    → Holds h into ys
    → Disjoint xs ys
    → (let r = eject_and_move n l into is_protected h in
        Holds r.2 r.0 (drop xs n)
        × Holds r.2 r.1 (push_all (kept is_protected (take xs n)) ys)
        × (r.2.destroyed ≡ h.destroyed ++ dropped is_protected (take xs n))
        × ((q : ℕ) → mem q xs ≡ false → r.2.next q ≡ h.next q))
unfolding eject_and_move
eject_and_move_lem n is_protected l into xs ys h holds holds' apart =
    let e =
      eject-Ejected is_protected n l.head xs into ys h holds.chain holds.unique holds' apart in
    (
      record {
        chain = e.chain;
        ends =
            subst (λ o. tail_of (eject n is_protected l.head into h).0 o ≡ last (drop xs n))
              (sym holds.ends) (drop_tail n _ _ xs e.chain);
        unique = Unique-drop n xs holds.unique;
      },
      e.into,
      e.log,
      e.same,
    )
