-- ===== src/HazardPointers/RetiredList/Append.antt =====
-- `append` on the objects that the lists hold.
use godby.Prelude.{
  ℕ, ◌≡◌, ◌≢◌, refl, sym, ◌∙◌, ap, subst, true, false, Option, none, some, List, [], ◌∷◌, ◌++◌,
  append-nil, arith, update, update-same, update_other, ==_iff,
}
use godby.Prelude.Chain.{mem, Unique}
use godby.Prelude.Linked.{Chain, Chain-update}
use godby.HazardPointers.Lists.{last_of}
use godby.HazardPointers.RetiredList.{Heap, RetiredList, empty, set_next, append}
use godby.HazardPointers.RetiredList.Cleanup.{Holds, ne_of_mem, out_of_mem}
use godby.HazardPointers.RetiredList.Moves.{Disjoint, tail-Disjoint}

-- The last object of a list is linked to the first of another one.
join-Chain :
    (next : ℕ → Option ℕ) (x : ℕ) (xs ys : List ℕ) (o : Option ℕ) (head : Option ℕ)
    → Chain next head (x ∷ xs)
    → Unique (x ∷ xs)
    → Chain next o ys
    → mem (last_of x xs) ys ≡ false
    → Chain (update next (last_of x xs) o) head (x ∷ xs ++ ys)
join-Chain next x [] ys o head c u c' out = (
  c.0,
  subst (λ e. Chain (update next x o) e ys) (sym (update-same next x o))
      (Chain-update next x o o ys out c'),
)
join-Chain next x (y ∷ xs) ys o head c u c' out = (
  c.0,
  subst (λ e. Chain (update next (last_of y xs) o) e (y ∷ xs ++ ys))
      (sym (update_other next (last_of y xs) o x (ne_last x y xs u.0)))
      (join-Chain next y xs ys o (next x) c.1 u.1 c' out),
)
  where
    ne_last : (x y : ℕ) (xs : List ℕ) → mem x (y ∷ xs) ≡ false → x ≢ last_of y xs
    ne_last x y [] m e = ne_of_mem x y [] m (sym e)
    ne_last x y (z ∷ xs) m e = ne_last x z xs (out_of_mem x y (z ∷ xs) m) e

mem-last_of : (x : ℕ) (xs : List ℕ) → mem (last_of x xs) (x ∷ xs) ≡ true
mem-last_of x [] = ground (arith, ==_iff x x)
mem-last_of x (y ∷ xs) = ground (arith, mem-last_of y xs)

last_of-append : (x y : ℕ) (xs ys : List ℕ) → last_of x (xs ++ y ∷ ys) ≡ last_of y ys
last_of-append x y [] ys = refl
last_of-append x y (z ∷ xs) ys = last_of-append z y xs ys

mem-append :
    (q : ℕ) (xs ys : List ℕ) → mem q xs ≡ false → mem q ys ≡ false → mem q (xs ++ ys) ≡ false
mem-append q [] ys m m' = m'
mem-append q (x ∷ xs) ys m m' = ground (arith, mem-append q xs ys)

Unique-append : (xs ys : List ℕ) → Unique xs → Unique ys → Disjoint xs ys → Unique (xs ++ ys)
Unique-append [] ys u u' apart = u'
Unique-append (x ∷ xs) ys u u' apart = (
  mem-append x xs ys u.0 (apart x (ground (arith, ==_iff x x))),
  Unique-append xs ys u.1 u' (tail-Disjoint x xs ys apart),
)

append-empty :
    (h : Heap) (other : RetiredList) (l : RetiredList) (ys : List ℕ)
    → l.head ≡ none
    → append l other h ≡ some (other, empty, h)
unfolding append
append-empty h other l ys e = ground arith

append-linked :
    (h : Heap) (other l : RetiredList) (p q t : ℕ)
    → l.head ≡ some p
    → l.tail ≡ some t
    → other.head ≡ some q
    → append l other h ≡ some (record l { tail = other.tail }, empty, set_next t (some q) h)
unfolding append
append-linked h other l p q t e e' e'' = ground arith

append-behind_nothing :
    (h : Heap) (other l : RetiredList) (p : ℕ)
    → l.head ≡ some p
    → other.head ≡ none
    → append l other h ≡ some (l, other, h)
unfolding append
append-behind_nothing h other l p e e' = ground arith

-- For two lists with no object in common: append never finds a list with a head and no tail; the first list then holds
-- its objects and behind them those of the other list, which is empty, and nothing has been destroyed.
append_lem :
    (l other : RetiredList) (xs ys : List ℕ) (h : Heap)
    → Holds h l xs
    → Holds h other ys
    → Disjoint xs ys
    → (l' other' : RetiredList) × (h' : Heap) × (append l other h ≡ some (l', other', h'))
      × Holds h' l' (xs ++ ys)
      × Holds h' other' []
      × (h'.destroyed ≡ h.destroyed)
append_lem l other [] ys h holds holds' apart = (
  other,
  empty,
  h,
  append-empty h other l ys holds.chain,
  holds',
  record { chain = refl; ends = refl; unique = tt },
  refl,
)
append_lem l other (x ∷ xs) [] h holds holds' apart = (
  l,
  other,
  h,
  append-behind_nothing h other l x holds.chain.0 holds'.chain,
  subst (Holds h l) (sym (append-nil (x ∷ xs))) holds,
  holds',
  refl,
)
append_lem l other (x ∷ xs) (y ∷ ys) h holds holds' apart = (
  record l { tail = other.tail },
  empty,
  set_next (last_of x xs) (some y) h,
  append-linked h other l x y (last_of x xs) holds.chain.0 holds.ends holds'.chain.0,
  record {
    chain =
        join-Chain h.next x xs (y ∷ ys) (some y) l.head holds.chain holds.unique
          (refl, holds'.chain.1) (apart (last_of x xs) (mem-last_of x xs));
    ends = holds'.ends ∙ ap some (sym (last_of-append x y xs ys));
    unique = Unique-append (x ∷ xs) (y ∷ ys) holds.unique holds'.unique apart;
  },
  record { chain = refl; ends = refl; unique = tt },
  refl,
)
